-- ===== src/Hw/Firmware/Upload.antt =====
-- The firmware arrives in pieces.
use linux_track.Prelude.{
  ℕ, zero, suc, ◌+◌, ◌≤◌, ◌<◌, ◌≡◌, subst, Bool, true, false, List, [], ◌∷◌, ◌++◌, length, take,
  drop, take-drop, length-take, length-drop, u8, ◌==◌, inl, inr, Bool-cases, arith,
}
use linux_track.Prelude.Exec.{Returns, Returns-mono}
use linux_track.Hw.State.{Env, Hw, Sent}
use linux_track.Hw.Packets.{fpga_init_packet}
use linux_track.Hw.Firmware.{next_len, upload_chunks, upload_firmware}

-- The packets between `old` and `new` carry these bytes to an endpoint, up to 60 in each, behind a kind
-- and their number.
pub data Carries (ep : ℕ) : List ℕ → List Sent → List Sent → Type 0 where
  all : {sent : List Sent} → Carries ep [] sent sent
  piece :
      (bytes rest : List ℕ) {old new : List Sent}
      → length bytes ≤ 60
      → Carries ep rest (record { endpoint = ep; payload = 0x1c ∷ length bytes ∷ bytes } ∷ old) new
      → Carries ep (bytes ++ rest) old new

module _ (env : Env) where
  -- The transfers from number `a` up to number `b` were fine.
  abbrev pub AllFine : ℕ → ℕ → Type 0
  AllFine a b = (k : ℕ) → a ≤ k → k < b → env.sent_fine k ≡ true

  -- From transfer `first` on: true with every byte carried and every transfer fine, or false with
  -- the last transfer failed and every earlier one fine.
  pub data Uploaded (ep : ℕ) (fw : List ℕ) (first : ℕ) (old : List Sent) : Bool × Hw → Type 0 where
    carried :
        {h' : Hw}
        → Carries ep fw old h'.sent
        → AllFine first h'.sends
        → Uploaded ep fw first old (true, h')
    broken :
        {h' : Hw} (k : ℕ)
        → first ≤ k
        → AllFine first k
        → env.sent_fine k ≡ false
        → suc k ≡ h'.sends
        → Uploaded ep fw first old (false, h')

  none_before : (a : ℕ) → AllFine a a
  none_before a k h l = absurd (omega arith)

  AllFine-first : (a b : ℕ) → env.sent_fine a ≡ true → AllFine (a + 1) b → AllFine a b
  AllFine-first a b fine rest k h l = elim (Bool-cases (a == k)) [
    | inl e ↦ let same : a ≡ k = ground arith in subst (λ j. env.sent_fine j ≡ true) same fine
    | inr e ↦ rest k (ground arith) l
  ]

  upload_chunks-Uploaded :
      (fuel : ℕ) (fw : List ℕ) (h : Hw)
      → length fw < fuel
      → Returns (Uploaded h.out_ep fw h.sends h.sent) (upload_chunks env fuel fw h)
  unfolding upload_chunks
  upload_chunks-Uploaded zero fw h k = absurd (omega arith)
  upload_chunks-Uploaded (suc n) [] h k = carried all (none_before h.sends)
  upload_chunks-Uploaded (suc n) (b ∷ bytes) h k =
      let fw = b ∷ bytes in
      let len = next_len fw in
      let some_bytes : 0 < len = ground arith in
      let fits : len ≤ length fw = ground arith in
      let few : len ≤ 60 = ground arith in
      let h1 : Hw = record h {
        sends = h.sends + 1;
        sent = record { endpoint = h.out_ep; payload = 0x1c ∷ u8 len ∷ take len fw } ∷ h.sent;
      } in
      elim (Bool-cases (env.sent_fine h.sends)) [
        | inl fine ↦ rw fine (
            Returns-mono (Uploaded h.out_ep (drop len fw) h1.sends h1.sent)
              (Uploaded h.out_ep fw h.sends h.sent) (upload_chunks env n (drop len fw) h1)
              (upload_chunks-Uploaded n (drop len fw) h1 (omega (arith, length-drop len fw)))
              (Uploaded-piece h len fw few fits fine))
        | inr bad ↦ rw bad (broken h.sends (omega arith) (none_before h.sends) bad (omega arith))
      ]
    where
      Uploaded-piece :
          (h : Hw) (len : ℕ) (fw : List ℕ)
          → len ≤ 60
          → len ≤ length fw
          → env.sent_fine h.sends ≡ true
          → (answer : Bool × Hw)
          → Uploaded h.out_ep
              (drop len fw)
              (h.sends + 1)
              (record { endpoint = h.out_ep; payload = 0x1c ∷ u8 len ∷ take len fw } ∷ h.sent)
              answer
          → Uploaded h.out_ep fw h.sends h.sent answer
      Uploaded-piece h len fw few fits fine (true, h') (carried c all_fine) =
          let size = length-take len fw fits in
          let count : u8 len ≡ length (take len fw) = omega (arith, size) in
          carried
            (subst (λ l. Carries h.out_ep l h.sent h'.sent) (take-drop len fw)
              (piece (take len fw) (drop len fw) (omega (arith, size)) (
                subst
                  (λ l.
                    Carries h.out_ep (drop len fw)
                      (record { endpoint = h.out_ep; payload = 0x1c ∷ l ∷ take len fw } ∷ h.sent)
                      h'.sent)
                  count c)))
            (AllFine-first h.sends h'.sends fine all_fine)
      Uploaded-piece h len fw few fits fine answer (broken k a before e f) =
          broken k (omega arith) (AllFine-first h.sends k fine before) e f

  started :
      (h : Hw)
      → env.sent_fine h.sends ≡ true
      → (old : List Sent) (fw : List ℕ) (answer : Bool × Hw)
      → Uploaded h.out_ep fw (h.sends + 1) old answer
      → Uploaded h.out_ep fw h.sends old answer
  started h fine old fw (true, h') (carried c all_fine) =
      carried c (AllFine-first h.sends h'.sends fine all_fine)
  started h fine old fw answer (broken k a before e f) =
      broken k (omega arith) (AllFine-first h.sends k fine before) e f

  -- `upload_firmware` starts the device's logic and sends the firmware in packets of at most 60 bytes, each with
  -- their number: it returns true when every transfer was fine and the bytes of all packets
  -- together are the firmware, and false when the last transfer failed, and every one before it was
  -- fine. A round for each byte and one more is enough.
  pub upload_firmware-Uploaded :
      (fuel : ℕ) (fw : List ℕ) (h : Hw)
      → length fw < fuel
      → Returns
          (Uploaded h.out_ep fw h.sends
            (record { endpoint = h.out_ep; payload = fpga_init_packet } ∷ h.sent))
          (upload_firmware env fuel fw h)
  unfolding upload_firmware
  upload_firmware-Uploaded fuel fw h k =
      let h1 : Hw = record h {
        sends = h.sends + 1;
        sent = record { endpoint = h.out_ep; payload = fpga_init_packet } ∷ h.sent;
      } in
      elim (Bool-cases (env.sent_fine h.sends)) [
        | inl fine ↦ rw fine (
            Returns-mono (Uploaded h.out_ep fw h1.sends h1.sent)
              (Uploaded h.out_ep fw h.sends h1.sent) (upload_chunks env fuel fw h1)
              (upload_chunks-Uploaded fuel fw h1 k) (started h fine h1.sent fw))
        | inr bad ↦ rw bad (broken h.sends (omega arith) (none_before h.sends) bad (omega arith))
      ]
