-- ===== src/Hw/Packets.antt =====
-- src/tir_hw.c: the single packets.
pub mod Threshold
use linux_track.Prelude.{
  ℕ, zero, suc, ◌+◌, ◌-◌, Bool, true, false, ◌||◌, Option, some, none, List, [], ◌∷◌, if◌then◌else◌,
  ltb, leb, ◌==◌, u8, ◌>>>◌, bit_and, bit_or,
}
use linux_track.Hw.State.{
  Found, tir2, tir5, tir5v2, number, Env, Hw, M, ◌>>=◌, ◌>>◌, pure, get, modify, send,
}

abbrev pub led_red : ℕ
led_red = 0x10

abbrev pub led_green : ℕ
led_green = 0x20

abbrev pub led_blue : ℕ
led_blue = 0x40

abbrev pub led_ir : ℕ
led_ir = 0x80

-- Known packets
abbrev pub video_off_packet : List ℕ
video_off_packet = 0x14 ∷ 0x01 ∷ []

abbrev pub video_on_packet : List ℕ
video_on_packet = 0x14 ∷ 0x00 ∷ []

abbrev pub fifo_flush_packet : List ℕ
fifo_flush_packet = 0x12 ∷ []

abbrev pub camera_stop_packet : List ℕ
camera_stop_packet = 0x13 ∷ []

abbrev pub fpga_init_packet : List ℕ
fpga_init_packet = 0x1b ∷ []

abbrev pub cfg_reload_packet : List ℕ
cfg_reload_packet = 0x20 ∷ []

abbrev pub get_status_packet : List ℕ
get_status_packet = 0x1d ∷ []

abbrev pub get_conf_packet : List ℕ
get_conf_packet = 0x17 ∷ []

abbrev pub precision_mode_packet : List ℕ
precision_mode_packet = 0x19 ∷ 0x03 ∷ 0x10 ∷ 0x00 ∷ 0x05 ∷ []

abbrev pub set_ir_brightness_packet : List ℕ
set_ir_brightness_packet = 0x10 ∷ 0x00 ∷ 0x02 ∷ 0x00 ∷ 0xA0 ∷ []

abbrev pub sn4_normal_mode_packet : List ℕ
sn4_normal_mode_packet = 0x19 ∷ 0x03 ∷ 0x0F ∷ 0x00 ∷ 0x00 ∷ []

abbrev pub sn4_grayscale_mode_packet : List ℕ
sn4_grayscale_mode_packet = 0x19 ∷ 0x03 ∷ 0x0F ∷ 0x00 ∷ 0x04 ∷ []

module _ (env : Env) where
  wiggle_leds_tir : ℕ → ℕ → M Bool
  unfolding send
  wiggle_leds_tir leds mask = send env (0x10 ∷ leds ∷ mask ∷ [])

  unfoldable pub turn_led_off_tir : ℕ → M Bool
  unfolding wiggle_leds_tir
  turn_led_off_tir leds = wiggle_leds_tir 0 (bit_and leds 0xf0)

  unfoldable pub turn_led_on_tir : ℕ → M Bool
  unfolding wiggle_leds_tir
  turn_led_on_tir leds = wiggle_leds_tir (bit_and leds 0xf0) (bit_and leds 0xf0)

  unfoldable pub flush_fifo_tir : M Bool
  unfolding send
  flush_fifo_tir = send env fifo_flush_packet

  -- The value is clamped to what the device takes; a TrackIR 2 takes a shorter packet.
  abbrev pub threshold_packet : Found → ℕ → List ℕ
  threshold_packet device val =
      let val = if ltb 253 val then 253 else val in
      if ltb (number tir2) (number device)
      then 0x15 ∷ u8 (if ltb val 30 then 30 else val) ∷ 0x01 ∷ 0x00 ∷ []
      else 0x15 ∷ u8 (if ltb val 40 then 40 else val) ∷ 0x01 ∷ []

  unfoldable pub set_threshold_tir : ℕ → M Bool
  unfolding send
  set_threshold_tir val = do h ← get; send env (threshold_packet h.device val)

  switch_green : Bool → M Bool
  unfolding turn_led_on_tir turn_led_off_tir
  switch_green true = turn_led_on_tir led_green
  switch_green false = turn_led_off_tir led_green

  switch_blue : Bool → M Bool
  unfolding turn_led_on_tir turn_led_off_tir
  switch_blue true = turn_led_on_tir led_blue
  switch_blue false = turn_led_off_tir led_blue

  switch_red : Bool → M Bool
  unfolding turn_led_on_tir turn_led_off_tir
  switch_red true = turn_led_on_tir led_red
  switch_red false = turn_led_off_tir led_red

  unfoldable pub set_status_led_tir5 : Bool → M Bool
  unfolding send
  set_status_led_tir5 running =
      send env
        (0x19 ∷ 0x04 ∷ 0x10 ∷ u8 (env.status_brightness) ∷ (if running then 0x22 else 0x33) ∷ [])

  -- `set_status_led_tir4`, and `set_status_led_sn4`, which has the same body.
  unfoldable pub set_status_led_tir4 : Bool → M Bool
  unfolding switch_red switch_green
  set_status_led_tir4 true = do switch_red false; switch_green true; pure true
  set_status_led_tir4 false = do switch_green false; switch_red true; pure true

  unfoldable pub set_status_led_sn3 : Bool → M Bool
  unfolding switch_green
  set_status_led_sn3 running = do switch_green running; pure true

  unfoldable pub control_status_led_tir : Bool → Bool → M Bool
  unfolding send
  control_status_led_tir status1 status2 = send env (
      0x19
      ∷ 0x04
      ∷ 0x10
      ∷ u8 (env.status_brightness)
      ∷ bit_or (if status1 then 0x20 else 0) (if status2 then 0x02 else 0)
      ∷ [])

  unfoldable pub turn_off_status_led_tir5 : M Bool
  unfolding send
  turn_off_status_led_tir5 = send env (0x19 ∷ 0x04 ∷ 0x10 ∷ 0x00 ∷ 0x00 ∷ [])

  unfoldable pub control_ir_led_tir : Bool → M Bool
  unfolding send
  control_ir_led_tir ir = send env (
      0x19 ∷ 0x09 ∷ 0x10 ∷ u8 (if ir then env.ir_brightness else 0) ∷ (if ir then 0x01 else 0) ∷ [])

  abbrev exposure_high : ℕ → List ℕ
  exposure_high exp = 0x23 ∷ 0x42 ∷ 0x08 ∷ u8 (exp >>> 8) ∷ 0x00 ∷ 0x00 ∷ []

  abbrev exposure_low : ℕ → List ℕ
  exposure_low exp = 0x23 ∷ 0x42 ∷ 0x10 ∷ u8 (bit_and exp 0xFF) ∷ 0x00 ∷ 0x00 ∷ []

  -- The low byte is sent where the high byte was.
  unfoldable pub set_exposure : ℕ → M Bool
  unfolding send
  set_exposure exp = do
    fine ← send env (exposure_high exp)
    if fine then send env (exposure_low exp) else pure false
