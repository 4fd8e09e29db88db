-- ===== src/Tir/Packet/Emitted.antt =====
-- What the stripe loop of a packet hands to the image processing, and what an odd size does to it.
use native.Mathlib.Decide.{dec_lt}
use linux_track.Prelude.{
  ℕ, zero, suc, ◌+◌, ◌*◌, ◌%◌, ◌^◌, ◌≤◌, ◌<◌, ◌≡◌, ◌≢◌, refl, sym, subst, ◌∙◌, true, false, List,
  [], ◌∷◌, ◌++◌, ◌==◌, ==_iff, length, arith, sub32, append-nil, append_assoc,
}
use linux_track.Prelude.Exec.{Exec, ok, fault, out_of_fuel, ◌>>=◌, Ends, returns, faults, Any}
use linux_track.Stripe.{Stripe}
use linux_track.Tir.Packet.{Parser, emit, stripe_loop}
use linux_track.Tir.Packet.Ending.{Decoder}

-- The stripes `s k`, … of `n` consecutive records.
abbrev pub records : (ℕ → Stripe) → ℕ → ℕ → List Stripe
records s k zero = []
records s k (suc n) = s k ∷ records s (k + 1) n

module _ (process : List ℕ → ℕ → Exec Stripe) (width : ℕ) (w : 0 < width) (data' : List ℕ)
    (base : ℕ) (s : ℕ → Stripe) where
  -- Where `n` whole records lie in the buffer and the size that is left counts exactly them, the loop
  -- hands over the `n` stripes in order, each once, and stops behind the last record.
  pub stripe_loop-records :
      (n k ptr ps fuel : ℕ) (st : Parser)
      → ptr ≡ base + width * k
      → ps ≡ width * n
      → ps < 2 ^ 32
      → n < fuel
      → ((j : ℕ) → k ≤ j → j < k + n → process data' (base + width * j) ≡ ok (s j))
      → stripe_loop process width fuel data' ptr ps st
        ≡ ok (ptr + width * n, record st { emitted = st.emitted ++ records s k n })
  unfolding stripe_loop
  stripe_loop-records n k ptr ps zero st at whole word h read = absurd (omega arith)
  stripe_loop-records zero k ptr ps (suc fuel) st at whole word h read =
      let done : (ps == 0) ≡ true = (==_iff ps 0).1 (omega arith) in
      let stay : ptr + width * 0 ≡ ptr = omega arith in rw (done, stay, append-nil st.emitted)
  stripe_loop-records (suc n) k ptr ps (suc fuel) st at whole word h read =
      let more : (ps == 0) ≡ false = ground arith in
      let first : process data' ptr ≡ ok (s k) =
        subst (λ p. process data' p ≡ ok (s k)) (sym at) (read k (omega arith) (omega arith)) in
      let tail =
        stripe_loop-records n (k + 1) (ptr + width) (sub32 ps width) fuel (emit (s k) st)
          (omega arith) (omega arith) (omega arith) (omega arith)
          (λ j lo hi. read j (omega arith) (omega arith)) in
      let stop : ptr + width + width * n ≡ ptr + width * suc n = omega arith in
      let order = append_assoc st.emitted (s k ∷ []) (records s (k + 1) n) in
      rw (more, first) (tail ∙ λ i. ok (stop i, record st { emitted = order i }))

-- A size that is no whole number of four-byte records wraps below zero and never reaches it: with a
-- decoder that reads at its position, the loop leaves the buffer.
module _ {process : List ℕ → ℕ → Exec Stripe} (d : Decoder process) (data' : List ℕ) where
  stripe_loop-odd_size :
      (fuel ptr ps : ℕ) (st : Parser)
      → length data' < fuel + ptr
      → 0 < fuel
      → ps < 2 ^ 32
      → ps % 4 ≢ 0
      → stripe_loop process 4 fuel data' ptr ps st ≡ fault
  unfolding stripe_loop
  stripe_loop-odd_size zero ptr ps st h p word odd = elim p [ ]
  stripe_loop-odd_size (suc fuel) ptr ps st h p word odd =
      let more : (ps == 0) ≡ false = ground arith in
      rw more (elim (dec_lt ptr (length data')) [
        | yes inside ↦ read (process data' ptr) (d.ending data' ptr) λ s.
            stripe_loop-odd_size fuel (ptr + 4) (sub32 ps 4) (emit s st) (omega arith) (omega arith)
              (omega arith) (omega arith)
        | no outside ↦ rw (d.past data' ptr (omega arith)) refl
      ])
    where
      read :
          (e : Exec Stripe)
          → Ends Any e
          → {k : Stripe → Exec (ℕ × Parser)} → ((s : Stripe) → k s ≡ fault)
          → (e >>= k) ≡ fault
      read (ok s) (returns q) all = all s
      read fault faults all = refl
      read out_of_fuel q all = elim q [ ]
