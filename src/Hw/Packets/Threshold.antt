-- ===== src/Hw/Packets/Threshold.antt =====
-- The threshold that the device is sent.
use linux_track.Prelude.{
  ℕ, ◌≤◌, ◌<◌, ◌≡◌, refl, List, ◌∷◌, if◌then◌else◌, ltb, inl, inr, Bool-cases, arith,
}
use linux_track.Prelude.Exec.{Returns}
use linux_track.Hw.State.{Found, number, Env, Hw}
use linux_track.Hw.Packets.{threshold_packet, set_threshold_tir}

-- The least threshold: 30, and 40 on a TrackIR 2 or what comes before it.
abbrev lowest : Found → ℕ
lowest d = if ltb 1 (number d) then 30 else 40

-- The payload carries a threshold in the bounds, which is the one asked for if that is in them.
pub data Threshold (d : Found) (val : ℕ) : List ℕ → Type 0 where
  threshold :
      (level : ℕ) (tail : List ℕ)
      → lowest d ≤ level
      → level ≤ 253
      → (lowest d ≤ val → val ≤ 253 → level ≡ val)
      → (val < lowest d → level ≡ lowest d)
      → (253 < val → level ≡ 253)
      → Threshold d val (0x15 ∷ level ∷ tail)

threshold_packet-Threshold :
    (env : Env) (d : Found) (val : ℕ) → Threshold d val (threshold_packet env d val)
threshold_packet-Threshold env d val = elim (Bool-cases (ltb 1 (number d))) [
  | inl newer ↦
      rw newer
        (threshold _ _ (ground arith) (ground arith) (ground arith) (ground arith) (ground arith))
  | inr older ↦
      rw older
        (threshold _ _ (ground arith) (ground arith) (ground arith) (ground arith) (ground arith))
]

-- `set_threshold_tir` sends one packet to the output endpoint and returns how that went. The packet's threshold is the
-- one asked for, moved to the next bound if it is outside of 30 to 253, or of 40 to
-- 253 on a TrackIR 2 or a device with a smaller number.
set_threshold_tir-Threshold :
    (env : Env) (val : ℕ) (h : Hw)
    → Returns
        (λ (r, h').
          (r ≡ env.sent_fine h.sends)
          × (payload : List ℕ) × (h'.sent
              ≡ record { endpoint = h.out_ep; payload = payload } ∷ h.sent)
          × Threshold h.device val payload)
        (set_threshold_tir env val h)
unfolding set_threshold_tir
set_threshold_tir-Threshold env val h =
    (refl, threshold_packet env h.device val, refl, threshold_packet-Threshold env h.device val)
