-- ===== src/Hw/Init.antt =====
-- src/tir_hw.c: the initialisation of each camera. `fuel` bounds the loops that wait for the device, and
-- the upload.
pub mod Tir5
pub mod SmartNav
pub mod Ready
use linux_track.Prelude.{
  ℕ, zero, suc, ◌+◌, Bool, true, false, not, ◌&&◌, ◌||◌, Option, some, none, List, [], ◌∷◌,
  if◌then◌else◌, ◌==◌, length,
}
use linux_track.Prelude.Exec
use linux_track.Prelude.Exec.{Exec, ok, fault, out_of_fuel}
use linux_track.Hw.State.{
  Found, not_tir, tir2, tir3, tir4, tir5, tir5v2, smartnav3, smartnav4, not_permitted, Interface,
  tir2_iface, tir3_iface, tir4_iface, tir5_iface, smartnav3_iface, smartnav4_iface, Env, Hw, M,
  ◌>>=◌, ◌>>◌, pure, get, modify, failed, send, receive, flush_packets,
}
use linux_track.Hw.Packets.{
  led_red, led_green, led_blue, led_ir, video_off_packet, video_on_packet, camera_stop_packet,
  cfg_reload_packet, precision_mode_packet, set_ir_brightness_packet, turn_led_off_tir,
  flush_fifo_tir, set_threshold_tir, control_status_led_tir, control_ir_led_tir, set_exposure,
}
use linux_track.Hw.Firmware.{Firmware, load_firmware, upload_firmware}
use linux_track.Hw.Status.{
  TirStatus, read_status_tir, read_rom_data_tir3, read_rom_data_tir, await_reload,
}
use linux_track.Hw.Camera.{stop_camera_tir}

-- Unknown packets
abbrev unk_5 : List ℕ
unk_5 = 0x23 ∷ 0x40 ∷ 0x1c ∷ 0x5e ∷ 0x00 ∷ 0x00 ∷ []

abbrev unk_6 : List ℕ
unk_6 = 0x23 ∷ 0x40 ∷ 0x1d ∷ 0x01 ∷ 0x00 ∷ 0x00 ∷ []

abbrev pub unk_7 : List ℕ
unk_7 = 0x19 ∷ 0x05 ∷ 0x10 ∷ 0x10 ∷ 0x00 ∷ []

abbrev unk_8 : List ℕ
unk_8 = 0x19 ∷ 0x03 ∷ 0x03 ∷ 0x00 ∷ 0x00 ∷ []

abbrev pub unk_9 : List ℕ
unk_9 = 0x19 ∷ 0x04 ∷ 0x0F ∷ 0x00 ∷ 0x0F ∷ []

abbrev pub unk_a : List ℕ
unk_a = 0x19 ∷ 0x14 ∷ 0x10 ∷ 0x00 ∷ 0x01 ∷ []

abbrev pub unk_b : List ℕ
unk_b = 0x23 ∷ 0x90 ∷ 0x0B ∷ 0x00 ∷ 0x01 ∷ 0x3C ∷ []

abbrev pub unk_c : List ℕ
unk_c = 0x23 ∷ 0x90 ∷ 0xF0 ∷ 0x32 ∷ 0x01 ∷ 0x3C ∷ []

abbrev pub unk_d : List ℕ
unk_d = 0x19 ∷ 0x14 ∷ 0x10 ∷ 0x00 ∷ 0x00 ∷ []

abbrev pub unk_e : List ℕ
unk_e = 0x1F ∷ 0x20 ∷ []

abbrev pub set_ir_on : Bool → M (Unit {0})
set_ir_on p_ir_on = modify (λ h. record h { ir_on = p_ir_on })

-- `(device == TIR5) || (device == TIR5V2)`
abbrev is_tir5 : Found → Bool
is_tir5 tir5 = true
is_tir5 tir5v2 = true
is_tir5 _ = false

-- A call whose failure ends the caller with false.
abbrev pub or_false : M Bool → M Bool → M Bool
or_false m k = do fine ← m; if fine then k else pure false

-- A status whose lack ends the caller with false.
abbrev pub with_status : M (Option TirStatus) → (TirStatus → M Bool) → M Bool
with_status m k = do status ← m; elim status [ none ↦ pure false | some s ↦ k s ]

abbrev pub with_firmware : Exec (Option Firmware) → (Firmware → M Bool) → M Bool
with_firmware (ok none) k = pure false
with_firmware (ok (some fw)) k = k fw
with_firmware fault k = failed
with_firmware out_of_fuel k = λ h. out_of_fuel

module _ (env : Env) where
  unfoldable pub init_camera_tir2 : Bool → M Bool
  unfolding turn_led_off_tir send receive read_rom_data_tir3 set_threshold_tir
  init_camera_tir2 p_ir_on = do
    set_ir_on p_ir_on
    turn_led_off_tir env led_ir
    turn_led_off_tir env led_red
    turn_led_off_tir env led_green
    turn_led_off_tir env led_blue
    send env video_off_packet
    turn_led_off_tir env led_ir
    turn_led_off_tir env led_red
    turn_led_off_tir env led_green
    turn_led_off_tir env led_blue
    receive env
    receive env
    receive env
    or_false (read_rom_data_tir3 env) (do set_threshold_tir env 0x8c; pure true)

  unfoldable pub init_camera_tir3 : Bool → M Bool
  unfolding stop_camera_tir send receive read_rom_data_tir3 set_threshold_tir
  init_camera_tir3 p_ir_on = do
    set_ir_on p_ir_on
    or_false (stop_camera_tir env) (do
      receive env
      receive env
      receive env
      or_false (read_rom_data_tir3 env) (do
        set_threshold_tir env 0x8c
        send env unk_5
        send env unk_6
        set_threshold_tir env 0xd0
        send env unk_8
        pure true))

  -- What `init_camera_tir4` does about the configuration flag.
  unfoldable pub configure_tir4 : ℕ → ℕ → M Bool
  unfolding send await_reload set_exposure set_threshold_tir
  configure_tir4 fuel cfg_flag =
      if cfg_flag == 1
      then (do
        send env cfg_reload_packet
        or_false (await_reload env fuel cfg_flag) (do
          h ← get
          let brighten = do send env set_ir_brightness_packet; set_exposure env 0x18F
          (if is_tir5 h.device then brighten else pure true)
          set_threshold_tir env 0x82
          pure true))
      else pure (cfg_flag == 2)

  -- What follows the configuration.
  unfoldable pub finish_tir4 : M Bool
  unfolding send
  finish_tir4 = do
    h ← get
    (if is_tir5 h.device then send env precision_mode_packet else pure true)
    pure true

  -- What follows the second status.
  unfoldable pub confirm_tir4 : ℕ → Firmware → TirStatus → M Bool
  unfolding configure_tir4 finish_tir4
  confirm_tir4 fuel fw status =
      if not (status.fw_cksum == fw.cksum)
      then pure false
      else or_false (configure_tir4 fuel status.cfg_flag) finish_tir4

  -- What follows the loading of the firmware's file.
  unfoldable pub renew_tir4 : ℕ → Bool → TirStatus → Firmware → M Bool
  unfolding upload_firmware read_status_tir confirm_tir4
  renew_tir4 fuel force_fw_load status fw = do
    let needed = force_fw_load || (not status.fw_loaded || not (status.fw_cksum == fw.cksum))
    (if needed then upload_firmware env (suc (length fw.firmware)) fw.firmware else pure true)
    with_status (read_status_tir env) (confirm_tir4 fuel fw)

  -- What follows the first status.
  unfoldable pub load_tir4 : ℕ → Bool → TirStatus → M Bool
  unfolding load_firmware renew_tir4
  load_tir4 fuel force_fw_load status =
      with_firmware (load_firmware env.firmware_file) (renew_tir4 fuel force_fw_load status)

  -- What follows the stopping of the camera.
  unfoldable pub identify_tir4 : ℕ → Bool → M Bool
  unfolding flush_packets read_rom_data_tir read_status_tir load_tir4
  identify_tir4 fuel force_fw_load = do
    flush_packets env fuel
    or_false (read_rom_data_tir env fuel)
        (with_status (read_status_tir env) (load_tir4 fuel force_fw_load))

  unfoldable pub init_camera_tir4 : ℕ → Bool → Bool → M Bool
  unfolding stop_camera_tir identify_tir4
  init_camera_tir4 fuel force_fw_load p_ir_on = do
    set_ir_on p_ir_on
    or_false (stop_camera_tir env) (identify_tir4 fuel force_fw_load)
