-- ===== src/Comm/Blobs.antt =====
-- The hand-over of a frame's blobs between the processes.
use linux_track.Prelude.{
  ℕ, zero, suc, ◌+◌, ◌^◌, ◌≤◌, ◌<◌, ◌≡◌, refl, ◌∙◌, true, false, List, ltb, if◌then◌else◌,
  get_elem?, set, length, u32, arith, inl, inr, Option-cases, length-set, get_elem?-set,
  get_elem?-ne-none,
}
use linux_track.Prelude.Exec.{ok}
use linux_track.Comm.{
  Blob, Mmap, max_blobs, unlock, copy_blobs, set_blobs, have_new_blobs, get_blobs,
}

-- `(a < b) ? a : b`
abbrev pub fewer : ℕ → ℕ → ℕ
fewer a b = if ltb a b then a else b

module _ {F : Type 0} where
  -- The array `to'` holds the first `n` entries of `from`, and behind them what `to` held.
  pub record Copied (n : ℕ) (from to to' : List (Blob F)) : Type 0 where
    pub size : length to' ≡ length to
    pub copied : (j : ℕ) → j < n → get_elem? to' j ≡ get_elem? from j
    pub kept : (j : ℕ) → n ≤ j → get_elem? to' j ≡ get_elem? to j

  copy_blobs-ok :
      (n i : ℕ) (from to : List (Blob F))
      → i + n ≤ length from
      → i + n ≤ length to
      → (to' : List (Blob F)) × (copy_blobs n i from to ≡ ok to')
        × (length to' ≡ length to)
        × ((j : ℕ) → i ≤ j → j < i + n → get_elem? to' j ≡ get_elem? from j)
        × ((j : ℕ) → j < i → get_elem? to' j ≡ get_elem? to j)
        × ((j : ℕ) → i + n ≤ j → get_elem? to' j ≡ get_elem? to j)
  unfolding copy_blobs
  copy_blobs-ok zero i from to h k =
      (to, refl, refl, (λ j a b. absurd (omega arith)), (λ j a. refl), (λ j a. refl))
  copy_blobs-ok (suc n) i from to h k = elim (Option-cases (get_elem? from i)) [
    | inl e ↦ absurd (get_elem?-ne-none from i (omega arith) e)
    | inr (b, e) ↦
        let fits : ltb i (length to) ≡ true = ground arith in
        let size = length-set to i b in
        let (to', run, len, mid, low, high) =
          copy_blobs-ok n (i + 1) from (set to i b) (omega arith) (omega arith) in
        (
          to',
          rw (e, fits) run,
          len ∙ size,
          (λ j a c. ground (arith, get_elem?-set to i b j, mid j, low j)),
          (λ j a. ground (arith, get_elem?-set to i b j, low j)),
          (λ j a. ground (arith, get_elem?-set to i b j, high j)),
        )
  ]

  copy_blobs-Copied :
      (n : ℕ) (from to : List (Blob F))
      → n ≤ length from
      → n ≤ length to
      → (to' : List (Blob F)) × (copy_blobs n 0 from to ≡ ok to') × Copied n from to to'
  copy_blobs-Copied n from to h k =
      let (to', run, len, mid, low, high) = copy_blobs-ok n 0 from to (omega arith) (omega arith) in
      (
        to',
        run,
        record {
          size = len;
          copied = λ j a. mid j (omega arith) (omega arith);
          kept = λ j a. high j (omega arith);
        },
      )

  -- A frame of `n` blobs is set, where ten fit, and read by a process with room for `room` of them:
  -- neither leaves an array, the reader's array begins with the sender's blobs as far as all three
  -- bounds go, and is kept behind them; the count returned is that of the blobs stored. Both give
  -- the lock back. The reader sees the frame as new before reading it, if it had read the one before,
  -- and as old afterwards.
  pub get_blobs-set_blobs :
      (sent mine : List (Blob F)) (n room last_val : ℕ) (m : Mmap F)
      → n ≤ length sent
      → room ≤ length mine
      → length m.data'.blobs ≡ max_blobs
      → last_val ≡ m.data'.frame_counter
      → last_val < 2 ^ 32
      → (m' : Mmap F) × (m'' : Mmap F) × (got : List (Blob F)) × (seen : ℕ) × (set_blobs sent n m
          ≡ ok m')
        × (get_blobs mine room m' ≡ ok (fewer n max_blobs, got, seen, m''))
        × Copied (fewer room (fewer n max_blobs)) sent mine got
        × ((m'.held ≡ false) × (m''.held ≡ false))
        × ((have_new_blobs m' last_val).0 ≡ true)
        × ((have_new_blobs m'' seen).0 ≡ false)
  unfolding set_blobs get_blobs have_new_blobs
  get_blobs-set_blobs sent mine n room last_val m h k ten read word =
      let cs = m.data' in
      let below : fewer n max_blobs ≤ n = ground arith in
      let fits : fewer n max_blobs ≤ length cs.blobs = ground arith in
      let part : fewer room (fewer n max_blobs) ≤ fewer n max_blobs = ground arith in
      let small : fewer room (fewer n max_blobs) ≤ room = ground arith in
      let (stored, run1, one) =
        copy_blobs-Copied (fewer n max_blobs) sent cs.blobs (omega arith) fits in
      let (got, run2, two) =
        copy_blobs-Copied (fewer room (fewer n max_blobs)) stored mine (omega (arith, one.size))
          (omega arith) in
      let m' : Mmap F = unlock (record m {
        data' = record cs {
          blobs = stored;
          num_blobs = fewer n max_blobs;
          frame_counter = u32 (cs.frame_counter + 1);
        };
      }) in
      (
        m',
        m',
        got,
        u32 (cs.frame_counter + 1),
        rw run1 refl,
        rw run2 refl,
        record {
          size = two.size;
          copied = λ j a. two.copied j a ∙ one.copied j (omega arith);
          kept = λ j a. two.kept j a;
        },
        (refl, refl),
        ground arith,
        ground arith,
      )
