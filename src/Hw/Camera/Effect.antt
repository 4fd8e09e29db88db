-- ===== src/Hw/Camera/Effect.antt =====
-- What the packets sent make of the camera: whether it sends pictures, and its infrared LEDs.
use linux_track.Prelude.{
  ℕ, ◌≡◌, ◌∙◌, sym, ap, subst, Bool, true, false, not, ◌&&◌, ◌||◌, Option, some, none, List, [],
  ◌∷◌, if◌then◌else◌, ◌==◌, bit_and, arith,
}
use linux_track.Prelude.Exec.{Returns, Returns-bind, Returns-mono}
use linux_track.Hw.State.{
  Interface, tir2_iface, tir4_iface, tir5_iface, Env, Hw, Sent, M, ◌>>=◌, ◌>>◌, pure,
}
use linux_track.Hw.Packets.{video_off_packet, video_on_packet, camera_stop_packet}
use linux_track.Hw.Camera.{
  when, stop_by, stop_camera_tir, start_by, start_camera_tir, status_led_by, status_led_if,
  set_status_led_tir, pause_tir, resume_tir,
}

abbrev same_bytes : List ℕ → List ℕ → Bool
same_bytes [] [] = true
same_bytes (a ∷ p) (b ∷ q) = a == b && same_bytes p q
same_bytes _ _ = false

-- The newest command to send pictures or to stop.
abbrev pub video : List Sent → Option Bool
video [] = none
video (s ∷ older) =
    if same_bytes s.payload video_on_packet
    then some true
    else if same_bytes s.payload video_off_packet || same_bytes s.payload camera_stop_packet
    then some false
    else video older

abbrev has_ir : ℕ → Bool
has_ir leds = not (bit_and leds 0x80 == 0)

-- The infrared LEDs have a bit of their own in a packet for LEDs, and a packet on the TrackIR 5.
abbrev ir_command : List ℕ → Option Bool
ir_command (kind ∷ leds ∷ mask ∷ []) =
    if kind == 0x10 && has_ir mask then some (has_ir leds) else none
ir_command (a ∷ b ∷ c ∷ level ∷ switch ∷ []) =
    if a == 0x19 && b == 0x09 && c == 0x10 then some (not (switch == 0)) else none
ir_command _ = none

abbrev pub newest : Option Bool → Option Bool → Option Bool
newest (some b) older = some b
newest none older = older

abbrev pub infrared : List Sent → Option Bool
infrared [] = none
infrared (s ∷ older) = newest (ir_command s.payload) (infrared older)

-- The settings are those of before.
pub record Kept (h h' : Hw) : Type 0 where
  pub device : h'.device ≡ h.device
  pub iface : h'.tir_iface ≡ h.tir_iface
  pub ir : h'.ir_on ≡ h.ir_on
  pub endpoint : h'.out_ep ≡ h.out_ep

-- What the camera does after a call, and that the settings are kept.
pub record Camera (on ir : Bool) (h h' : Hw) : Type 0 where
  pub pictures : video h'.sent ≡ some on
  pub light : infrared h'.sent ≡ some ir
  pub kept : Kept h h'

-- The call returned true.
abbrev pub Done : Bool → Bool → Hw → Bool × Hw → Type 0
Done on ir h (r, h') = (r ≡ true) × Camera on ir h h'

abbrev Leaves : Bool → Bool → Hw → Bool × Hw → Type 0
Leaves on ir h (r, h') = Camera on ir h h'

module _ (env : Env) where
  stop_by-Camera : (i : Interface) (h : Hw) → Returns (Done false false h) (stop_by env (some i) h)
  unfolding stop_by
  stop_by-Camera tir2_iface h = ground arith
  stop_by-Camera _ h = ground arith

  -- The status LEDs are other LEDs.
  status_led_by-Camera :
      (i : Interface) (running on ir : Bool) (h : Hw)
      → video h.sent ≡ some on
      → infrared h.sent ≡ some ir
      → Returns (Leaves on ir h) (status_led_by env i running h)
  unfolding status_led_by
  status_led_by-Camera tir2_iface true on ir h v l = ground arith
  status_led_by-Camera tir2_iface false on ir h v l = ground arith
  status_led_by-Camera tir5_iface running on ir h v l = ground arith
  status_led_by-Camera _ true on ir h v l = ground arith
  status_led_by-Camera _ false on ir h v l = ground arith

  start_by-Camera :
      (i : Interface) (h : Hw)
      → h.tir_iface ≡ some i
      → infrared h.sent ≡ some false
      → Returns (Done true h.ir_on h) (start_by env (some i) h)
  unfolding start_by
  start_by-Camera tir4_iface h e l = rw e (ground arith)
  start_by-Camera tir5_iface h e l = rw e (ground arith)
  start_by-Camera _ h e l = ground arith

  set_status_led-Camera :
      (i : Interface) (running on ir : Bool) (h h' : Hw)
      → h.tir_iface ≡ some i
      → Camera on ir h h'
      → Returns (Leaves on ir h) (set_status_led_tir env running h')
  unfolding set_status_led_tir
  set_status_led-Camera i running on ir h h' e c =
      subst (λ o. Returns (Leaves on ir h) (status_led_if env env.status_indication o running h'))
        (sym (c.kept.iface ∙ e)) (indicated env.status_indication)
    where
      indicated : (b : Bool) → Returns (Leaves on ir h) (when b (status_led_by env i running) h')
      indicated true =
          Returns-mono (Leaves on ir h') (Leaves on ir h) (status_led_by env i running h')
            (status_led_by-Camera i running on ir h' c.pictures c.light)
            (λ (r, h'') d. ground arith)
      indicated false = c

  -- The status LED leaves what starting or stopping did.
  then_led :
      (i : Interface) (running on ir : Bool) (h : Hw) (m : M Bool)
      → h.tir_iface ≡ some i
      → Returns (Done on ir h) (m h)
      → Returns (Done on ir h) ((m >>= λ res. set_status_led_tir env running >> pure res) h)
  then_led i running on ir h m e d =
      Returns-bind (Done on ir h) (Done on ir h) (m h)
        (λ (res, h'). (set_status_led_tir env running >> pure res) h') d
        (λ (res, h') (t, c).
          Returns-bind (Leaves on ir h) (Done on ir h) (set_status_led_tir env running h')
            (λ (r, h''). pure res h'') (set_status_led-Camera i running on ir h h' e c)
            (λ (r, h'') c'. (t, c')))

  -- For a camera of any kind that has its interface, whatever the transfers answer:
  -- `ltr_int_pause_tir` returns true with no pictures and no infrared light ordered last, and
  -- `ltr_int_resume_tir` after it returns true with pictures, and with infrared light exactly if
  -- it was asked for at the start. Both keep the settings.
  pub pause_tir-resume_tir :
      (i : Interface) (h : Hw)
      → h.tir_iface ≡ some i
      → Returns
          (λ (r, h').
            Done false false h (r, h') × Returns (Done true h.ir_on h) (resume_tir env h'))
          (pause_tir env h)
  unfolding pause_tir resume_tir stop_camera_tir start_camera_tir
  pause_tir-resume_tir i h e =
      Returns-mono (Done false false h) _ (pause_tir env h)
        (then_led i false false false h (stop_camera_tir env) e (
          subst (λ o. Returns (Done false false h) (stop_by env o h)) (sym e) (stop_by-Camera i h)))
        (λ (r, h') (t, c).
          let e' = c.kept.iface ∙ e in
          (
            (t, c),
            Returns-mono (Done true h'.ir_on h') (Done true h.ir_on h) (resume_tir env h')
                (then_led i true true h'.ir_on h' (start_camera_tir env) e' (
                  subst (λ o. Returns (Done true h'.ir_on h') (start_by env o h')) (sym e')
                    (start_by-Camera i h' e' c.light)))
                (λ (r, h'') (t', c'). (
                  t',
                  record {
                    pictures = c'.pictures;
                    light = c'.light ∙ ap some c.kept.ir;
                    kept = ground arith;
                  },
                )),
          ))
