-- ===== src/Hw/Open.antt =====
-- src/tir_hw.c: finding a camera, opening it and closing it.
pub mod Refused
pub mod Closed
use linux_track.Prelude.{
  ℕ, Bool, true, false, ◌||◌, Option, some, none, List, [], ◌∷◌, if◌then◌else◌, leb, ◌==◌,
}
use linux_track.Hw.State.{
  Found, not_tir, tir2, tir3, tir4, tir5, tir5v2, smartnav3, smartnav4, not_permitted, number,
  Interface, tir2_iface, tir3_iface, tir4_iface, tir5_iface, smartnav3_iface, smartnav4_iface, Env,
  Hw, M, ◌>>=◌, ◌>>◌, pure, get, modify, failed, send,
}
use linux_track.Hw.Packets.{
  led_red, led_green, led_blue, led_ir, fpga_init_packet, precision_mode_packet, turn_led_off_tir,
  set_threshold_tir, control_status_led_tir, control_ir_led_tir, set_exposure,
}
use linux_track.Hw.Camera.{stop_camera_tir, start_camera_tir}
use linux_track.Hw.Init.{or_false, init_camera_tir2, init_camera_tir3, init_camera_tir4}
use linux_track.Hw.Init.Tir5.{init_camera_tir5}
use linux_track.Hw.Init.SmartNav.{init_camera_sn4, init_camera_sn3}

-- The TrackIR 2 and 3 and the SmartNav 3 are sent to by endpoint 2, the TrackIR 4 and 5 by 1.
set_endpoints : Found → Hw → Hw
set_endpoints device h =
    if leb (number device) (number tir3) || number device == number smartnav3
    then record h { cfg_in_ep = 0x82; data_in_ep = 0x82; out_ep = 0x02 }
    else if number device == number smartnav4
    then record h { cfg_in_ep = 0x84; data_in_ep = 0x86; out_ep = 0x02 }
    else record h { cfg_in_ep = 0x82; data_in_ep = 0x82; out_ep = 0x01 }

abbrev pub interface_of : Found → Option Interface
interface_of tir2 = some tir2_iface
interface_of tir3 = some tir3_iface
interface_of tir4 = some tir4_iface
interface_of tir5 = some tir5_iface
interface_of tir5v2 = some tir5_iface
interface_of smartnav4 = some smartnav4_iface
interface_of smartnav3 = some smartnav3_iface
interface_of not_tir = none
interface_of not_permitted = none

abbrev unk_4 : List ℕ
unk_4 = 0x19 ∷ 0x15 ∷ 0x10 ∷ 0x40 ∷ 0x00 ∷ []

module _ (env : Env) where
  init_by : Option Interface → ℕ → Bool → Bool → M Bool
  unfolding init_camera_tir2 init_camera_tir3 init_camera_tir4 init_camera_tir5 init_camera_sn4
      init_camera_sn3
  init_by none fuel force_fw_load p_ir_on = failed
  init_by (some tir2_iface) fuel force_fw_load p_ir_on = init_camera_tir2 env p_ir_on
  init_by (some tir3_iface) fuel force_fw_load p_ir_on = init_camera_tir3 env p_ir_on
  init_by (some tir4_iface) fuel force_fw_load p_ir_on =
      init_camera_tir4 env fuel force_fw_load p_ir_on
  init_by (some tir5_iface) fuel force_fw_load p_ir_on = init_camera_tir5 env fuel p_ir_on
  init_by (some smartnav4_iface) fuel force_fw_load p_ir_on =
      init_camera_sn4 env fuel force_fw_load p_ir_on
  init_by (some smartnav3_iface) fuel force_fw_load p_ir_on = init_camera_sn3 env fuel p_ir_on

  init_camera_tir : ℕ → Bool → Bool → M Bool
  unfolding init_by
  init_camera_tir fuel force_fw_load p_ir_on = do
    h ← get
    init_by h.tir_iface fuel force_fw_load p_ir_on

  -- From the switch over the device on, where there is a structure for it.
  start_by_interface : Option Interface → ℕ → Bool → Bool → M Bool
  unfolding init_camera_tir start_camera_tir
  start_by_interface none fuel force_fw_load switch_ir_on = pure false
  start_by_interface (some i) fuel force_fw_load switch_ir_on = do
    modify (λ h. record h { tir_iface = some i })
    or_false (init_camera_tir fuel force_fw_load switch_ir_on) (do start_camera_tir env; pure true)

  -- From the device found on.
  unfoldable pub open_device : Found → ℕ → Bool → Bool → M Bool
  unfolding set_endpoints start_by_interface
  open_device not_tir fuel force_fw_load switch_ir_on = pure false
  open_device device fuel force_fw_load switch_ir_on = do
    modify (set_endpoints device)
    if env.prepare_device
        then start_by_interface (interface_of device) fuel force_fw_load switch_ir_on
        else pure false

  unfoldable pub open_tir : ℕ → Bool → Bool → M Bool
  unfolding open_device
  open_tir fuel force_fw_load switch_ir_on =
      if env.init_usb
      then (do
        modify (λ h. record h { device = env.find_tir; usb_open = true })
        open_device env.find_tir fuel force_fw_load switch_ir_on)
      else pure false

  abbrev finish_usb : M (Unit {0})
  finish_usb = modify (λ h. record h { usb_open = false })

  close_camera_tir2 : M Bool
  unfolding stop_camera_tir turn_led_off_tir
  close_camera_tir2 = do
    stop_camera_tir env
    turn_led_off_tir env led_red
    turn_led_off_tir env led_green
    turn_led_off_tir env led_blue
    turn_led_off_tir env led_ir
    finish_usb
    pure true

  close_camera_tir3 : M Bool
  unfolding stop_camera_tir send turn_led_off_tir
  close_camera_tir3 = do
    stop_camera_tir env
    send env unk_4
    turn_led_off_tir env led_red
    turn_led_off_tir env led_green
    turn_led_off_tir env led_blue
    finish_usb
    pure true

  close_camera_tir4 : M Bool
  unfolding stop_camera_tir
  close_camera_tir4 = do stop_camera_tir env; finish_usb; pure true

  close_camera_tir5 : M Bool
  unfolding stop_camera_tir set_threshold_tir set_exposure control_ir_led_tir control_status_led_tir
      send turn_led_off_tir
  close_camera_tir5 = do
    stop_camera_tir env
    set_threshold_tir env 0x96
    set_exposure env 0x18F
    control_ir_led_tir env true
    control_status_led_tir env false false
    control_status_led_tir env false false
    send env precision_mode_packet
    turn_led_off_tir env led_ir
    send env fpga_init_packet
    finish_usb
    pure true

  close_camera_sn4 : M Bool
  unfolding stop_camera_tir
  close_camera_sn4 = do
    stop_camera_tir env
    finish_usb
    modify (λ h. record h { sn4_pipe = false })
    pure true

  unfoldable pub close_by : Option Interface → M Bool
  unfolding close_camera_tir2 close_camera_tir3 close_camera_tir4 close_camera_tir5 close_camera_sn4
  close_by none = failed
  close_by (some tir2_iface) = close_camera_tir2
  close_by (some tir3_iface) = close_camera_tir3
  close_by (some tir4_iface) = close_camera_tir4
  close_by (some tir5_iface) = close_camera_tir5
  close_by (some smartnav4_iface) = close_camera_sn4
  close_by (some smartnav3_iface) = close_camera_tir4

  unfoldable pub close_tir : M Bool
  unfolding close_by
  close_tir = do h ← get; close_by h.tir_iface

-- `tir_info`: the size of the picture and the factor, 1 or 2, by which its height is squashed.
pub record TirInfo : Type 0 where
  pub width : ℕ
  pub height : ℕ
  pub hf : ℕ
  pub dev_type : Found

unfoldable pub get_tir_info : Interface → TirInfo
get_tir_info tir2_iface = record { width = 256; height = 256; hf = 1; dev_type = tir2 }
get_tir_info tir3_iface = record { width = 440; height = 314; hf = 1; dev_type = tir3 }
get_tir_info tir4_iface = record { width = 400; height = 300; hf = 2; dev_type = tir4 }
get_tir_info tir5_iface = record { width = 640; height = 480; hf = 1; dev_type = tir5 }
get_tir_info smartnav4_iface = record { width = 640; height = 480; hf = 2; dev_type = smartnav4 }
get_tir_info smartnav3_iface = record { width = 400; height = 300; hf = 2; dev_type = smartnav3 }
