-- ===== src/Hw/Init/Tir5.antt =====
-- src/tir_hw.c: the initialisation of the TrackIR 5. The answers to most packets are ignored.
use linux_track.Prelude.{ℕ, suc, Bool, true, false, length}
use linux_track.Hw.State.{Env, M, ◌>>◌, pure, send}
use linux_track.Hw.Packets.{
  video_on_packet, camera_stop_packet, cfg_reload_packet, precision_mode_packet, flush_fifo_tir,
  set_threshold_tir, control_status_led_tir, control_ir_led_tir, set_exposure,
}
use linux_track.Hw.Firmware.{load_firmware, upload_firmware}
use linux_track.Hw.Status.{read_status_tir, read_rom_data_tir}
use linux_track.Hw.Camera.{stop_camera_tir}
use linux_track.Hw.Init.{set_ir_on, with_firmware, unk_7}

module _ (env : Env) where
  -- What follows the upload.
  finish_tir5 : M Bool
  unfolding send read_status_tir flush_fifo_tir set_threshold_tir control_status_led_tir
      control_ir_led_tir set_exposure
  finish_tir5 = do
    send env unk_7
    flush_fifo_tir env
    send env camera_stop_packet
    read_status_tir env
    send env cfg_reload_packet
    set_threshold_tir env 0x96
    set_exposure env 0x18F
    control_ir_led_tir env true
    control_status_led_tir env false false
    control_status_led_tir env false false
    send env precision_mode_packet
    control_status_led_tir env false false
    control_ir_led_tir env true
    set_threshold_tir env 0x76
    set_exposure env 0x15E
    control_status_led_tir env false false
    send env precision_mode_packet
    flush_fifo_tir env
    send env camera_stop_packet
    control_ir_led_tir env true
    send env video_on_packet
    pure true

  unfoldable pub init_camera_tir5 : ℕ → Bool → M Bool
  unfolding stop_camera_tir read_rom_data_tir read_status_tir load_firmware upload_firmware
      flush_fifo_tir control_ir_led_tir set_exposure finish_tir5
  init_camera_tir5 fuel p_ir_on = do
    set_ir_on p_ir_on
    stop_camera_tir env
    read_rom_data_tir env fuel
    control_ir_led_tir env true
    flush_fifo_tir env
    set_exposure env 0x18F
    read_status_tir env
    with_firmware (load_firmware env.firmware_file)
        λ fw. do upload_firmware env (suc (length fw.firmware)) fw.firmware; finish_tir5
