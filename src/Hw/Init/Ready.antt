-- ===== src/Hw/Init/Ready.antt =====
-- A TrackIR 4 that answers what it is asked.
use linux_track.Prelude.{
  ℕ, suc, ◌+◌, ◌≡◌, refl, Bool, true, false, some, List, [], ◌∷◌, ◌++◌, drop, length, ltb, ◌==◌,
  ◌<<<◌, arith,
}
use linux_track.Prelude.Exec.{ok, Returns}
use linux_track.Hw.State.{tir4_iface, tir4, Env, Hw, flush_packets}
use linux_track.Hw.Firmware.{Firmware, load_firmware}
use linux_track.Hw.Status.{
  await_status, read_status_tir, await_conf, read_rom_data_tir, parse_status,
}
use linux_track.Hw.Camera.{stop_camera_tir}
use linux_track.Hw.Init.{
  configure_tir4, finish_tir4, confirm_tir4, renew_tir4, load_tir4, identify_tir4, init_camera_tir4,
}

abbrev pub status_bytes : ℕ → ℕ → ℕ → List ℕ
status_bytes high low flag = 0x07 ∷ 0x20 ∷ 0 ∷ 1 ∷ high ∷ low ∷ flag ∷ []

module _ (env : Env) where
  flush_packets-empty :
      (n : ℕ) (h : Hw)
      → env.received h.receives ≡ record { fine = true; bytes = [] }
      → flush_packets env (suc n) h ≡ ok (tt, record h { receives = h.receives + 1 })
  unfolding flush_packets
  flush_packets-empty n h e = rw e refl

  read_rom_data_tir-ready :
      (n first third : ℕ) (rest : List ℕ) (h : Hw)
      → env.sent_fine h.sends ≡ true
      → env.received h.receives ≡ record { fine = true; bytes = [] }
      → env.received (h.receives + 1) ≡ record { fine = true; bytes = first ∷ 0x40 ∷ third ∷ rest }
      → read_rom_data_tir env (suc n) h
        ≡ ok (
          true,
          record h {
            receives = h.receives + 1 + 1;
            sends = h.sends + 1;
            sent = record { endpoint = h.out_ep; payload = 0x17 ∷ [] } ∷ h.sent;
            packet = (first ∷ 0x40 ∷ third ∷ rest) ++ drop (suc (suc (suc (length rest)))) h.packet;
          },
        )
  unfolding read_rom_data_tir await_conf
  read_rom_data_tir-ready n first third rest h f e e' =
      let long : ltb 2 (length (first ∷ 0x40 ∷ third ∷ rest)) ≡ true = ground arith in
      rw (flush_packets-empty n h e, f, e', long) refl

  -- The state after a status was read.
  abbrev asked : ℕ → ℕ → ℕ → Hw → Hw
  asked high low flag h = record h {
    receives = h.receives + 1;
    sends = h.sends + 1;
    sent = record { endpoint = h.out_ep; payload = 0x1d ∷ [] } ∷ h.sent;
    packet = status_bytes high low flag ++ drop 7 h.packet;
  }

  read_status_tir-ready :
      (high low flag : ℕ) (h : Hw)
      → env.sent_fine h.sends ≡ true
      → env.received h.receives ≡ record { fine = true; bytes = status_bytes high low flag }
      → read_status_tir env h
        ≡ ok (
          some (record { fw_loaded = true; cfg_flag = flag; fw_cksum = (high <<< 8) + low }),
          asked high low flag h,
        )
  unfolding read_status_tir await_status parse_status
  read_status_tir-ready high low flag h f e = rw (f, e) refl

  -- The answers, from the next one on: nothing to two flushes, the configuration, and a status with
  -- this checksum and flag 2, twice.
  pub record Ready (first_byte third_byte : ℕ) (rest : List ℕ) (high low k : ℕ) : Type 0 where
    pub first : env.received k ≡ record { fine = true; bytes = [] }
    pub second : env.received (k + 1) ≡ record { fine = true; bytes = [] }
    pub conf :
        env.received (k + 1 + 1)
        ≡ record { fine = true; bytes = first_byte ∷ 0x40 ∷ third_byte ∷ rest }
    pub status :
        env.received (k + 1 + 1 + 1) ≡ record { fine = true; bytes = status_bytes high low 2 }
    pub again :
        env.received (k + 1 + 1 + 1 + 1) ≡ record { fine = true; bytes = status_bytes high low 2 }

  identify_tir4-Ready :
      (n first third : ℕ) (rest : List ℕ) (high low : ℕ) (fw : Firmware) (h : Hw)
      → h.device ≡ tir4
      → ((j : ℕ) → env.sent_fine j ≡ true)
      → load_firmware env.firmware_file ≡ ok (some fw)
      → fw.cksum ≡ (high <<< 8) + low
      → Ready first third rest high low h.receives
      → Returns (λ (r, h'). (r ≡ true) × (h'.ir_on ≡ h.ir_on)) (identify_tir4 env (suc n) false h)
  unfolding identify_tir4 load_tir4 renew_tir4 confirm_tir4 configure_tir4 finish_tir4
  identify_tir4-Ready n first third rest high low fw h dev fine loads same ready =
      let h1 : Hw = record h { receives = h.receives + 1 } in
      let h2 : Hw = record h1 {
        receives = h1.receives + 1 + 1;
        sends = h1.sends + 1;
        sent = record { endpoint = h1.out_ep; payload = 0x17 ∷ [] } ∷ h1.sent;
        packet = (first ∷ 0x40 ∷ third ∷ rest) ++ drop (suc (suc (suc (length rest)))) h1.packet;
      } in
      let h3 = asked high low 2 h2 in
      let matches : ((high <<< 8) + low == fw.cksum) ≡ true = ground arith in
      rw
        (
          flush_packets-empty n h ready.first,
          read_rom_data_tir-ready n first third rest h1 (fine h1.sends) ready.second ready.conf,
          read_status_tir-ready high low 2 h2 (fine h2.sends) ready.status,
          loads,
          matches,
          read_status_tir-ready high low 2 h3 (fine h3.sends) ready.again,
          matches,
          dev,
        )
        (refl, refl)

  -- A TrackIR 4 is initialised that takes every packet, answers with no bytes to the first read
  -- of each of the two flushes, then with its configuration, any packet of three bytes or more
  -- whose second one is 0x40, and then twice with a status of
  -- loaded firmware, configuration flag 2 and the checksum of the firmware's file:
  -- `init_camera_tir4`, with fuel and no upload forced, returns true, and keeps whether infrared
  -- light is wanted.
  pub init_camera_tir4-Ready :
      (n first third : ℕ) (rest : List ℕ) (high low : ℕ) (fw : Firmware) (ir : Bool) (h : Hw)
      → h.tir_iface ≡ some tir4_iface
      → h.device ≡ tir4
      → ((j : ℕ) → env.sent_fine j ≡ true)
      → load_firmware env.firmware_file ≡ ok (some fw)
      → fw.cksum ≡ (high <<< 8) + low
      → Ready first third rest high low h.receives
      → Returns (λ (r, h'). (r ≡ true) × (h'.ir_on ≡ ir)) (init_camera_tir4 env (suc n) false ir h)
  unfolding init_camera_tir4 stop_camera_tir
  init_camera_tir4-Ready n first third rest high low fw ir h iface dev fine loads same ready =
      rw iface (identify_tir4-Ready n first third rest high low fw _ dev fine loads same ready)
