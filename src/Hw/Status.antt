-- ===== src/Hw/Status.antt =====
-- src/tir_hw.c: asking the device for its status and its configuration.
pub mod Reload
use linux_track.Prelude.{
  ℕ, zero, suc, ◌+◌, Bool, true, false, not, ◌&&◌, Option, some, none, List, [], ◌∷◌, if◌then◌else◌,
  ltb, ◌==◌, ◌<<<◌,
}
use linux_track.Hw.State.{
  Env, Hw, M, ◌>>=◌, ◌>>◌, pure, exhausted, packet_at, send, receive, flush_packets,
}
use linux_track.Hw.Packets.{get_status_packet, get_conf_packet}

-- `tir_status_t`
pub record TirStatus : Type 0 where
  pub fw_loaded : Bool
  pub cfg_flag : ℕ
  pub fw_cksum : ℕ

-- The status is read off whatever the packet holds.
unfoldable pub parse_status : M TirStatus
parse_status = do
  loaded ← packet_at 3
  flag ← packet_at 6
  high ← packet_at 4
  low ← packet_at 5
  pure (record { fw_loaded = loaded == 1; cfg_flag = flag; fw_cksum = (high <<< 8) + low })

abbrev unk_1 : List ℕ
unk_1 = 0x17 ∷ 0x01 ∷ []

-- `(t > 2) && (ltr_int_packet[0] == 0x07) && (ltr_int_packet[1] == 0x20)`, and so on: the test of the
-- bytes is made only for a packet that is long enough.
abbrev is_status : ℕ → M Bool
is_status t = do
  kind ← packet_at 0
  code ← packet_at 1
  pure (ltb 2 t && (kind == 0x07 && code == 0x20))

abbrev is_conf : ℕ → M Bool
is_conf t = do code ← packet_at 1; pure (ltb 2 t && code == 0x40)

abbrev is_rom : M Bool
is_rom = do kind ← packet_at 0; code ← packet_at 1; pure (kind == 0x09 && code == 0x40)

module _ (env : Env) where
  -- The loop of `read_status_tir` with the rounds left. Where they run out it goes on as after a
  -- status packet.
  unfoldable pub await_status : ℕ → M Bool
  unfolding send receive
  await_status zero = pure true
  await_status (suc n) = do
    asked ← send env get_status_packet
    let answer = do
      (fine, t) ← receive env
      let rest = do
        found ← is_status t
        let again = await_status n
        if found then pure true else again
      if fine then rest else pure false
    if asked then answer else pure false

  unfoldable pub read_status_tir : M (Option TirStatus)
  unfolding await_status parse_status
  read_status_tir = do
    fine ← await_status 20
    let status = do s ← parse_status; pure (some s)
    if fine then status else pure none

  await_rom : ℕ → M Bool
  unfolding receive
  await_rom zero = pure true
  await_rom (suc n) = do
    (fine, t) ← receive env
    let rest = do found ← is_rom; let again = await_rom n; if found then pure true else again
    if fine then rest else pure false

  unfoldable pub read_rom_data_tir3 : M Bool
  unfolding send await_rom
  read_rom_data_tir3 = do
    asked ← send env unk_1
    let rest = await_rom 20
    if asked then rest else pure false

  unfoldable pub await_conf : ℕ → M Bool
  unfolding send receive
  await_conf zero = pure true
  await_conf (suc n) = do
    asked ← send env get_conf_packet
    let answer = do
      (fine, t) ← receive env
      let rest = do found ← is_conf t; let again = await_conf n; if found then pure true else again
      if fine then rest else pure false
    if asked then answer else pure false

  -- The flush takes fuel.
  unfoldable pub read_rom_data_tir : ℕ → M Bool
  unfolding flush_packets await_conf
  read_rom_data_tir fuel = do flush_packets env fuel; await_conf 10

  -- `while(status.cfg_flag != 2) read_status`, on fuel, with the flag.
  unfoldable pub await_reload : ℕ → ℕ → M Bool
  unfolding read_status_tir
  await_reload zero flag = exhausted
  await_reload (suc n) flag = if flag == 2 then pure true else (do
    status ← read_status_tir
    elim status [ none ↦ pure false | some s ↦ await_reload n s.cfg_flag ])
