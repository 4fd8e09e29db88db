-- ===== src/Hw/Open/Refused.antt =====
-- Where no camera is opened.
use linux_track.Prelude.{◌≡◌, refl, ◌⊎◌, inl, inr, Bool, true, false, none, ℕ, arith, if◌then◌else◌}
use linux_track.Prelude.Exec.{Returns, Returns-mono}
use linux_track.Hw.State.{Found, not_tir, tir2, Env, Hw, M, ◌>>◌, pure, modify}
use linux_track.Hw.Open.{open_device, open_tir, interface_of}

-- False was returned, and no packet was sent or asked for.
pub record Refused (h : Hw) (answer : Bool × Hw) : Type 0 where
  pub result : answer.0 ≡ false
  pub sent : answer.1.sent ≡ h.sent
  pub received : answer.1.receives ≡ h.receives

from_init :
    (b : Bool) (m : M Bool) (h : Hw)
    → Returns (Refused h) (m h)
    → Returns (Refused h) ((if b then m else pure false) h)
from_init true m h r = r
from_init false m h r = record { result = refl; sent = refl; received = refl }

module _ (env : Env) (fuel : ℕ) (force ir : Bool) where
  open_device-unknown :
      (d : Found) (h : Hw)
      → interface_of d ≡ none
      → Returns (Refused h) (open_device env d fuel force ir h)
  unfolding open_device
  open_device-unknown not_tir h e = ground arith
  open_device-unknown tir2 h e = absurd (ground arith)
  open_device-unknown _ h e = ground arith

  open_device-unclaimed :
      (d : Found) (h : Hw)
      → env.prepare_device ≡ false
      → Returns (Refused h) (open_device env d fuel force ir h)
  unfolding open_device
  open_device-unclaimed not_tir h e = ground arith
  open_device-unclaimed _ h e = rw e (ground arith)

  -- Where the USB library cannot be set up, no camera is found or it may not be used, or it cannot be
  -- claimed, `ltr_int_open_tir` returns false, and no packet was sent or asked for.
  open_tir-Refused :
      (h : Hw)
      → (env.init_usb ≡ false) ⊎ ((interface_of env.find_tir ≡ none) ⊎ (env.prepare_device ≡ false))
      → Returns (Refused h) (open_tir env fuel force ir h)
  unfolding open_tir
  open_tir-Refused h (inl e) = rw e (ground arith)
  open_tir-Refused h (inr why) =
      from_init env.init_usb
        (do
          modify (λ k. record k { device = env.find_tir; usb_open = true })
          open_device env env.find_tir fuel force ir)
        h
        (Returns-mono (Refused (found h)) (Refused h)
          (open_device env env.find_tir fuel force ir (found h)) (refused why)
          (λ answer k. record { result = k.result; sent = k.sent; received = k.received }))
    where
      found : Hw → Hw
      found k = record k { device = env.find_tir; usb_open = true }

      refused :
          (interface_of env.find_tir ≡ none) ⊎ (env.prepare_device ≡ false)
          → Returns (Refused (found h)) (open_device env env.find_tir fuel force ir (found h))
      refused (inl e) = open_device-unknown env.find_tir (found h) e
      refused (inr e) = open_device-unclaimed env.find_tir (found h) e
