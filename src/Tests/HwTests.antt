-- ===== src/Tests/HwTests.antt =====
-- Tests and examples for src/tir_hw.c.
use linux_track.Prelude.{
  ℕ, zero, suc, ◌<◌, ◌≡◌, ◌≢◌, refl, true, false, some, List, [], ◌∷◌, ◌++◌, replicate, arith,
}
use linux_track.Prelude.Exec.{ok, out_of_fuel, Returns}
use linux_track.Hw.State.{
  Found, not_tir, tir4, Interface, tir4_iface, tir5_iface, chunk, Received, Env, Hw, Sent,
}
use linux_track.Hw.Firmware.{
  Firmware, cksum_from, cksum_firmware, read_firmware, load_firmware, upload_firmware,
}
use linux_track.Hw.Firmware.Load.{short, load_firmware-Gives}
use linux_track.Hw.Firmware.Upload.{Uploaded, upload_firmware-Uploaded}
use linux_track.Hw.Status.{await_reload}
use linux_track.Hw.Status.Reload.{answered, await_reload-answered}
use linux_track.Hw.Camera.{pause_tir, resume_tir}
use linux_track.Hw.Camera.Effect.{Done, pause_tir-resume_tir}
use linux_track.Hw.Init.{init_camera_tir4}
use linux_track.Hw.Init.Ready.{status_bytes, init_camera_tir4-Ready}
use linux_track.Hw.Open.{close_tir}
use linux_track.Hw.Open.Closed.{Closed, close_tir-Closed}

-- An environment with these answers to the requests.
abbrev with_answers : (ℕ → Received) → Found → Env
with_answers answers found = record {
  init_usb = true;
  find_tir = found;
  prepare_device = true;
  sent_fine = λ _. true;
  received = answers;
  status_indication = true;
  status_brightness = 2;
  ir_brightness = 7;
  use_grayscale = false;
  firmware_file = some (chunk (1 ∷ 2 ∷ 3 ∷ []) ∷ []);
  pipe_opens = true;
}

abbrev nothing : Received
nothing = record { fine = true; bytes = [] }

-- The checksum of the file is 6.
abbrev loaded : List ℕ
loaded = status_bytes 0 6 2

abbrev in_turn : ℕ → Received
in_turn zero = nothing
in_turn (suc zero) = nothing
in_turn (suc (suc zero)) = record { fine = true; bytes = 0x14 ∷ 0x40 ∷ 0 ∷ [] }
in_turn _ = record { fine = true; bytes = loaded }

abbrev attached : Env
attached = with_answers in_turn tir4

abbrev mute : Env
mute = with_answers (λ _. nothing) not_tir

abbrev same_answer : Env
same_answer = with_answers (λ _. record { fine = true; bytes = loaded }) tir4

abbrev camera : Interface → Hw
camera i = record {
  device = tir4;
  tir_iface = some i;
  ir_on = true;
  cfg_in_ep = 0x82;
  data_in_ep = 0x82;
  out_ep = 0x01;
  packet = loaded ++ replicate 57 0;
  sn4_pipe = false;
  usb_open = true;
  sends = 0;
  receives = 0;
  sent = [];
}

abbrev file : Firmware
file = record { firmware = 1 ∷ 2 ∷ 3 ∷ []; cksum = 6 }

file_loads : load_firmware (some (chunk (1 ∷ 2 ∷ 3 ∷ []) ∷ [])) ≡ ok (some file)
unfolding load_firmware read_firmware cksum_firmware cksum_from
file_loads = refl

pause_tir-resume_tir_example :
    Returns
      (λ (r, h').
        Done false false (camera tir5_iface) (r, h')
        × Returns (Done true true (camera tir5_iface)) (resume_tir attached h'))
      (pause_tir attached (camera tir5_iface))
pause_tir-resume_tir_example = pause_tir-resume_tir attached tir5_iface (camera tir5_iface) refl

close_tir-Closed_example : Returns Closed (close_tir attached (camera tir5_iface))
close_tir-Closed_example = close_tir-Closed attached tir5_iface (camera tir5_iface) refl

load_firmware-Gives_example :
    load_firmware (some (chunk (1 ∷ 2 ∷ 3 ∷ []) ∷ []))
    ≡ ok (some (record { firmware = 1 ∷ 2 ∷ 3 ∷ []; cksum = cksum_firmware (1 ∷ 2 ∷ 3 ∷ []) }))
load_firmware-Gives_example =
    load_firmware-Gives (chunk (1 ∷ 2 ∷ 3 ∷ []) ∷ []) (1 ∷ 2 ∷ 3 ∷ [])
      (short (1 ∷ 2 ∷ 3 ∷ []) [] (omega arith)) (omega arith)

upload_firmware-Uploaded_example :
    Returns
      (Uploaded attached 0x01
        (replicate 61 5)
        0
        (record { endpoint = 0x01; payload = 0x1b ∷ [] } ∷ []))
      (upload_firmware attached 62 (replicate 61 5) (camera tir4_iface))
upload_firmware-Uploaded_example =
    upload_firmware-Uploaded attached 62 (replicate 61 5) (camera tir4_iface) (omega arith)

await_reload-answered_example :
    (◌≡◌ {A = ℕ} 2 2
      → (fuel : ℕ) → 1 < fuel
      → await_reload same_answer fuel 1 (camera tir4_iface)
        ≡ ok (true, answered same_answer 2 0 1 0 6 [] (camera tir4_iface)))
    × (◌≢◌ {A = ℕ} 2 2
        → (fuel : ℕ) → await_reload same_answer fuel 1 (camera tir4_iface) ≡ out_of_fuel)
await_reload-answered_example =
    await_reload-answered same_answer 2 0 1 0 6 [] 1 (camera tir4_iface) (omega arith)
      ((λ k. refl), λ k. refl)

init_camera_tir4-Ready_example :
    Returns
      (λ (r, h'). (r ≡ true) × (h'.ir_on ≡ true))
      (init_camera_tir4 attached 1 false true (camera tir4_iface))
init_camera_tir4-Ready_example =
    init_camera_tir4-Ready attached 0 0x14 0 [] 0 6 file true (camera tir4_iface) refl refl
      (λ j. refl) file_loads refl
      (record { first = refl; second = refl; conf = refl; status = refl; again = refl })

abbrev packet_of : List ℕ → Sent
packet_of bytes = record { endpoint = 0x01; payload = bytes }

-- The camera after the initialisation.
abbrev initialised : Hw
initialised = record (camera tir4_iface) {
  sends = 10;
  receives = 5;
  sent =
      packet_of (0x1d ∷ [])
      ∷ packet_of (0x1d ∷ [])
      ∷ packet_of (0x17 ∷ [])
      ∷ packet_of (0x13 ∷ [])
      ∷ packet_of (0x10 ∷ 0 ∷ 0x40 ∷ [])
      ∷ packet_of (0x10 ∷ 0 ∷ 0x20 ∷ [])
      ∷ packet_of (0x10 ∷ 0 ∷ 0x10 ∷ [])
      ∷ packet_of (0x10 ∷ 0 ∷ 0x80 ∷ [])
      ∷ packet_of (0x12 ∷ [])
      ∷ packet_of (0x14 ∷ 0x01 ∷ [])
      ∷ [];
}

init_camera_tir4-run :
    init_camera_tir4 attached 1 false true (camera tir4_iface) ≡ ok (true, initialised)
unfolding init_camera_tir4 load_firmware read_firmware cksum_firmware cksum_from
init_camera_tir4-run = refl
