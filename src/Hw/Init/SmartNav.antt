-- ===== src/Hw/Init/SmartNav.antt =====
-- src/tir_hw.c: the initialisation of the SmartNav cameras.
use linux_track.Prelude.{ℕ, suc, Bool, true, false, not, ◌||◌, if◌then◌else◌, ◌==◌, length}
use linux_track.Hw.State.{Env, M, ◌>>◌, pure, modify, send, receive, flush_packets}
use linux_track.Hw.Packets.{cfg_reload_packet, set_threshold_tir}
use linux_track.Hw.Firmware.{Firmware, load_firmware, upload_firmware}
use linux_track.Hw.Status.{read_status_tir, read_rom_data_tir, await_reload}
use linux_track.Hw.Camera.{stop_camera_tir}
use linux_track.Hw.Init.{
  set_ir_on, or_false, with_status, with_firmware, unk_7, unk_9, unk_a, unk_b, unk_c, unk_d, unk_e,
}

module _ (env : Env) where
  open_sn4_pipe : M Bool
  open_sn4_pipe h =
      let open_now = h.sn4_pipe || env.pipe_opens in
      (modify (λ k. record k { sn4_pipe = open_now }) >> pure open_now) h

  configure_sn4 : ℕ → ℕ → M Bool
  unfolding send await_reload set_threshold_tir
  configure_sn4 fuel cfg_flag =
      if cfg_flag == 1
      then (do
        send env cfg_reload_packet
        or_false (await_reload env fuel cfg_flag) (do
          send env unk_9
          send env unk_a
          send env unk_b
          send env unk_c
          send env unk_d
          set_threshold_tir env 0x78
          pure true))
      else pure (cfg_flag == 2)

  -- The branch that uploads the firmware.
  renew_sn4 : ℕ → Firmware → M Bool
  unfolding upload_firmware send flush_packets read_status_tir configure_sn4
  renew_sn4 fuel fw = do
    upload_firmware env (suc (length fw.firmware)) fw.firmware
    send env unk_7
    send env unk_e
    flush_packets env fuel
    with_status (read_status_tir env) λ status.
        if not (status.fw_cksum == fw.cksum) then pure false else configure_sn4 fuel status.cfg_flag

  unfoldable pub init_camera_sn4 : ℕ → Bool → Bool → M Bool
  unfolding stop_camera_tir flush_packets receive read_rom_data_tir read_status_tir load_firmware
      renew_sn4 open_sn4_pipe
  init_camera_sn4 fuel force_fw_load p_ir_on = do
    set_ir_on p_ir_on
    or_false (stop_camera_tir env) (do
      flush_packets env fuel
      receive env
      receive env
      or_false (read_rom_data_tir env fuel) (do
        flush_packets env fuel
        with_status (read_status_tir env) λ status.
            with_firmware (load_firmware env.firmware_file) λ fw.
              let needed =
                force_fw_load || (not status.fw_loaded || not (status.fw_cksum == fw.cksum)) in
              or_false (if needed then renew_sn4 fuel fw else pure true)
                (do open_sn4_pipe; pure true)))

  unfoldable pub init_camera_sn3 : ℕ → Bool → M Bool
  unfolding stop_camera_tir receive read_rom_data_tir
  init_camera_sn3 fuel p_ir_on = do
    set_ir_on p_ir_on
    or_false (stop_camera_tir env)
        (do receive env; receive env; receive env; read_rom_data_tir env fuel)
