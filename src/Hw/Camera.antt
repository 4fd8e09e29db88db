-- ===== src/Hw/Camera.antt =====
-- src/tir_hw.c: starting and stopping each camera. The results of the single packets are ignored.
pub mod Effect
use linux_track.Prelude.{ℕ, Bool, true, false, Option, some, none, List, [], ◌∷◌, if◌then◌else◌}
use linux_track.Hw.State.{
  Interface, tir2_iface, tir3_iface, tir4_iface, tir5_iface, smartnav3_iface, smartnav4_iface, Env,
  Hw, M, ◌>>=◌, ◌>>◌, pure, get, failed, send,
}
use linux_track.Hw.Packets.{
  led_red, led_green, led_blue, led_ir, video_off_packet, video_on_packet, fifo_flush_packet,
  camera_stop_packet, sn4_normal_mode_packet, sn4_grayscale_mode_packet, turn_led_off_tir,
  turn_led_on_tir, flush_fifo_tir, set_status_led_tir4, set_status_led_tir5, set_status_led_sn3,
  turn_off_status_led_tir5, control_ir_led_tir,
}

-- Unknown packets
abbrev unk_2 : List ℕ
unk_2 = 0x12 ∷ 0x01 ∷ []

abbrev unk_3 : List ℕ
unk_3 = 0x13 ∷ 0x01 ∷ []

-- Where the code tests a flag, it does the steps or nothing.
abbrev pub when : Bool → M Bool → M Bool
when true m = m
when false m = pure true

module _ (env : Env) where
  stop_camera_tir2 : M Bool
  unfolding send turn_led_off_tir
  stop_camera_tir2 = do
    turn_led_off_tir env led_red
    turn_led_off_tir env led_green
    turn_led_off_tir env led_blue
    turn_led_off_tir env led_ir
    send env camera_stop_packet
    turn_led_off_tir env led_ir
    pure true

  stop_camera_tir3 : M Bool
  unfolding send turn_led_off_tir flush_fifo_tir
  stop_camera_tir3 = do
    send env video_off_packet
    send env video_off_packet
    turn_led_off_tir env led_ir
    flush_fifo_tir env
    send env camera_stop_packet
    turn_led_off_tir env led_red
    turn_led_off_tir env led_green
    turn_led_off_tir env led_blue
    pure true

  stop_camera_tir4 : M Bool
  unfolding send turn_led_off_tir flush_fifo_tir
  stop_camera_tir4 = do
    send env video_off_packet
    flush_fifo_tir env
    turn_led_off_tir env led_ir
    turn_led_off_tir env led_red
    turn_led_off_tir env led_green
    turn_led_off_tir env led_blue
    send env camera_stop_packet
    pure true

  stop_camera_tir5 : M Bool
  unfolding send turn_led_off_tir flush_fifo_tir turn_off_status_led_tir5 control_ir_led_tir
  stop_camera_tir5 = do
    turn_off_status_led_tir5 env
    control_ir_led_tir env false
    send env video_off_packet
    send env video_off_packet
    send env video_off_packet
    send env video_off_packet
    send env video_off_packet
    send env unk_2
    send env unk_3
    send env video_off_packet
    send env video_off_packet
    send env video_off_packet
    send env video_off_packet
    send env video_off_packet
    flush_fifo_tir env
    send env camera_stop_packet
    turn_off_status_led_tir5 env
    turn_off_status_led_tir5 env
    control_ir_led_tir env false
    turn_led_off_tir env led_ir
    pure true

  stop_camera_sn4 : M Bool
  unfolding send turn_led_off_tir
  stop_camera_sn4 = do
    send env video_off_packet
    turn_led_off_tir env led_ir
    turn_led_off_tir env led_red
    turn_led_off_tir env led_green
    turn_led_off_tir env led_blue
    send env camera_stop_packet
    pure true

  stop_camera_sn3 : M Bool
  unfolding send turn_led_off_tir
  stop_camera_sn3 = do
    send env video_off_packet
    send env fifo_flush_packet
    turn_led_off_tir env led_green
    turn_led_off_tir env led_ir
    turn_led_off_tir env led_red
    turn_led_off_tir env led_blue
    send env camera_stop_packet
    pure true

  -- The structures of function pointers, and a failed assertion where none is set.
  unfoldable pub stop_by : Option Interface → M Bool
  unfolding stop_camera_tir2 stop_camera_tir3 stop_camera_tir4 stop_camera_tir5 stop_camera_sn4
      stop_camera_sn3
  stop_by none = failed
  stop_by (some tir2_iface) = stop_camera_tir2
  stop_by (some tir3_iface) = stop_camera_tir3
  stop_by (some tir4_iface) = stop_camera_tir4
  stop_by (some tir5_iface) = stop_camera_tir5
  stop_by (some smartnav3_iface) = stop_camera_sn3
  stop_by (some smartnav4_iface) = stop_camera_sn4

  unfoldable pub stop_camera_tir : M Bool
  unfolding stop_by
  stop_camera_tir = do h ← get; stop_by h.tir_iface

  start_camera_tir2 : M Bool
  unfolding send turn_led_on_tir flush_fifo_tir set_status_led_tir4
  start_camera_tir2 = do
    send env video_on_packet
    h ← get
    when h.ir_on (turn_led_on_tir env led_ir)
    flush_fifo_tir env
    when env.status_indication (set_status_led_tir4 env true)
    when h.ir_on (turn_led_on_tir env led_ir)
    pure true

  start_camera_tir3 : M Bool
  unfolding send turn_led_on_tir flush_fifo_tir set_status_led_tir4
  start_camera_tir3 = do
    flush_fifo_tir env
    send env camera_stop_packet
    h ← get
    when h.ir_on (turn_led_on_tir env led_ir)
    send env video_on_packet
    when env.status_indication (set_status_led_tir4 env true)
    pure true

  start_camera_tir4 : M Bool
  unfolding stop_camera_tir send turn_led_on_tir flush_fifo_tir set_status_led_tir4
  start_camera_tir4 = do
    stop_camera_tir
    send env video_on_packet
    h ← get
    when h.ir_on (turn_led_on_tir env led_ir)
    flush_fifo_tir env
    when env.status_indication (set_status_led_tir4 env true)
    pure true

  start_camera_tir5 : M Bool
  unfolding stop_camera_tir send control_ir_led_tir set_status_led_tir5
  start_camera_tir5 = do
    stop_camera_tir
    send env video_on_packet
    h ← get
    control_ir_led_tir env (if h.ir_on then true else false)
    when env.status_indication (set_status_led_tir5 env true)
    pure true

  start_camera_sn4 : M Bool
  unfolding send turn_led_on_tir set_status_led_tir4
  start_camera_sn4 = do
    send env (if env.use_grayscale then sn4_grayscale_mode_packet else sn4_normal_mode_packet)
    send env video_on_packet
    h ← get
    when h.ir_on (turn_led_on_tir env led_ir)
    when env.status_indication (set_status_led_tir4 env true)
    pure true

  start_camera_sn3 : M Bool
  unfolding send turn_led_on_tir
  start_camera_sn3 = do
    send env video_on_packet
    send env fifo_flush_packet
    turn_led_on_tir env led_green
    h ← get
    when h.ir_on (turn_led_on_tir env led_ir)
    turn_led_on_tir env led_blue
    pure true

  unfoldable pub start_by : Option Interface → M Bool
  unfolding start_camera_tir2 start_camera_tir3 start_camera_tir4 start_camera_tir5 start_camera_sn4
      start_camera_sn3
  start_by none = failed
  start_by (some tir2_iface) = start_camera_tir2
  start_by (some tir3_iface) = start_camera_tir3
  start_by (some tir4_iface) = start_camera_tir4
  start_by (some tir5_iface) = start_camera_tir5
  start_by (some smartnav3_iface) = start_camera_sn3
  start_by (some smartnav4_iface) = start_camera_sn4

  unfoldable pub start_camera_tir : M Bool
  unfolding start_by
  start_camera_tir = do h ← get; start_by h.tir_iface

  unfoldable pub status_led_by : Interface → Bool → M Bool
  unfolding set_status_led_tir4 set_status_led_tir5 set_status_led_sn3
  status_led_by tir5_iface = set_status_led_tir5 env
  status_led_by smartnav3_iface = set_status_led_sn3 env
  status_led_by _ = set_status_led_tir4 env

  unfoldable pub status_led_if : Bool → Option Interface → Bool → M Bool
  unfolding status_led_by
  status_led_if indicate none running = failed
  status_led_if indicate (some i) running = when indicate (status_led_by i running)

  unfoldable pub set_status_led_tir : Bool → M Bool
  unfolding status_led_if
  set_status_led_tir running = do h ← get; status_led_if env.status_indication h.tir_iface running

  unfoldable pub pause_tir : M Bool
  unfolding stop_camera_tir set_status_led_tir
  pause_tir = do res ← stop_camera_tir; set_status_led_tir false; pure res

  unfoldable pub resume_tir : M Bool
  unfolding start_camera_tir set_status_led_tir
  resume_tir = do res ← start_camera_tir; set_status_led_tir true; pure res
