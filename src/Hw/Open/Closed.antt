-- ===== src/Hw/Open/Closed.antt =====
-- Closing a camera.
use linux_track.Prelude.{◌≡◌, sym, subst, Bool, true, false, some, arith}
use linux_track.Prelude.Exec.{Returns}
use linux_track.Hw.State.{Interface, tir2_iface, Env, Hw}
use linux_track.Hw.Open.{close_by, close_tir}
use linux_track.Hw.Camera.Effect.{video, infrared}

-- The camera sends no pictures, its infrared light is off, and USB is released.
pub record Closed (answer : Bool × Hw) : Type 0 where
  pub result : answer.0 ≡ true
  pub pictures : video answer.1.sent ≡ some false
  pub light : infrared answer.1.sent ≡ some false
  pub released : answer.1.usb_open ≡ false

module _ (env : Env) where
  close_by-Closed :
      (i : Interface) (h : Hw) → h.tir_iface ≡ some i → Returns Closed (close_by env (some i) h)
  unfolding close_by
  close_by-Closed tir2_iface h e = rw e (ground arith)
  close_by-Closed _ h e = rw e (ground arith)

  -- Whatever the transfers answer, closing a camera that was opened returns true, after pictures and
  -- infrared light were switched off, and releases USB.
  pub close_tir-Closed :
      (i : Interface) (h : Hw) → h.tir_iface ≡ some i → Returns Closed (close_tir env h)
  unfolding close_tir
  close_tir-Closed i h e =
      subst (λ o. Returns Closed (close_by env o h)) (sym e) (close_by-Closed i h e)
