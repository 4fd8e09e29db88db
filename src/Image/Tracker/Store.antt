-- ===== src/Image/Tracker/Store.antt =====
-- `store_preblobs`: what the two loops do to every preblob and to the list of the finished ones.
use linux_track.Prelude.{
  ℕ, ◌+◌, ◌≡◌, refl, ◌∙◌, Bool, true, false, not, ◌&&◌, ◌||◌, Option, none, some, List, [], ◌∷◌,
  ◌==◌, if◌then◌else◌, arith, inl, inr, Option-cases,
}
use linux_track.Prelude.Exec.{ok}
use linux_track.Prelude.Cells.{live, live-set, total, total-set}
use linux_track.Image.Tracker.{
  Preblob, Range, Stored, finish_unmatched, store_current, reset_match, store_next,
}
use linux_track.Image.Tracker.Inv.{has, count, count-append}

module _ {F : Type 0} where
  abbrev pub points : Preblob F → ℕ
  points b = b.points

  abbrev pub is_live : Option (Preblob F) → Bool
  is_live none = false
  is_live (some b) = true

  -- A preblob after the first loop; the test says whether a range of `current` points to it.
  abbrev pub after_current : Bool → Option (Preblob F) → Option (Preblob F)
  after_current h none = none
  after_current h (some b) =
      some (if h && (not b.matched && not b.added) then record b { added = true } else b)

  abbrev pub newly_current : Bool → Option (Preblob F) → ℕ
  newly_current h none = 0
  newly_current h (some b) = if h && (not b.matched && not b.added) then 1 else 0

  -- A preblob after the second loop.
  abbrev pub after_next : Bool → Bool → Option (Preblob F) → Option (Preblob F)
  after_next all h none = none
  after_next all h (some b) =
      some (if h then record b { matched = false; added = b.added || all } else b)

  abbrev pub newly_next : Bool → Bool → Option (Preblob F) → ℕ
  newly_next all h none = 0
  newly_next all h (some b) = if h && (all && not b.added) then 1 else 0

  -- What a loop over `rs` made of `s`.
  pub record Passed (after : Bool → Option (Preblob F) → Option (Preblob F))
      (newly : Bool → Option (Preblob F) → ℕ) (rs : List Range) (s s' : Stored F) : Type 0 where
    pub cells : (p : ℕ) → live s'.0 p ≡ after (has p rs) (live s.0 p)
    pub lists : (p : ℕ) → count p s'.1 ≡ count p s.1 + newly (has p rs) (live s.0 p)
    pub keeps_points : total points s'.0 ≡ total points s.0

  finish_unmatched_cells :
      (q p : ℕ) (b : Preblob F) (s : Stored F)
      → live s.0 q ≡ some b
      → live (finish_unmatched q b s).0 p ≡ after_current (q == p) (live s.0 p)
  finish_unmatched_cells q p b (c, done) e =
      ground (arith, live-set c q (some (record b { added = true })) p e)

  finish_unmatched_lists :
      (q p : ℕ) (b : Preblob F) (s : Stored F)
      → live s.0 q ≡ some b
      → count p (finish_unmatched q b s).1 ≡ count p s.1 + newly_current (q == p) (live s.0 p)
  finish_unmatched_lists q p b (c, done) e = ground (arith, count-append p q done)

  finish_unmatched_points :
      (q : ℕ) (b : Preblob F) (s : Stored F)
      → live s.0 q ≡ some b
      → total points (finish_unmatched q b s).0 ≡ total points s.0
  finish_unmatched_points q b (c, done) e =
      ground (arith, total-set points c q (some (record b { added = true })) e)

  after_current_twice :
      (h k : Bool) (o : Option (Preblob F))
      → after_current k (after_current h o) ≡ after_current (h || k) o
  after_current_twice h k o = ground arith

  newly_current_twice :
      (h k : Bool) (o : Option (Preblob F))
      → newly_current h o + newly_current k (after_current h o) ≡ newly_current (h || k) o
  newly_current_twice h k o = ground arith

  -- Over live preblobs the first loop does not fault, and finishes those that are unmatched.
  pub store_current-Passed :
      (rs : List Range) (s : Stored F)
      → ((p : ℕ) → has p rs ≡ true → is_live (live s.0 p) ≡ true)
      → (s' : Stored F) × (store_current rs s ≡ ok s') × Passed after_current newly_current rs s s'
  unfolding store_current
  store_current-Passed [] s all = (
    s,
    refl,
    record { cells = λ p. ground arith; lists = λ p. ground arith; keeps_points = refl },
  )
  store_current-Passed (r ∷ rs) (c, done) all = elim (Option-cases (live c r.pb)) [
    | inl e ↦ absurd (ground (arith, all r.pb))
    | inr (b, e) ↦
        let s1 = finish_unmatched r.pb b (c, done) in
        let (s', run, rest) =
          store_current-Passed rs s1
            (λ p h. ground (arith, all p, finish_unmatched_cells r.pb p b (c, done) e)) in
        (
          s',
          rw e run,
          record {
            cells = λ p. ground (
              arith,
              rest.cells p,
              finish_unmatched_cells r.pb p b (c, done) e,
              after_current_twice (r.pb == p) (has p rs) (live c p),
            );
            lists = λ p. ground (
              arith,
              rest.lists p,
              finish_unmatched_cells r.pb p b (c, done) e,
              finish_unmatched_lists r.pb p b (c, done) e,
              newly_current_twice (r.pb == p) (has p rs) (live c p),
            );
            keeps_points = rest.keeps_points ∙ finish_unmatched_points r.pb b (c, done) e;
          },
        )
  ]

  reset_match_cells :
      (all : Bool) (q p : ℕ) (b : Preblob F) (s : Stored F)
      → live s.0 q ≡ some b
      → live (reset_match all q b s).0 p ≡ after_next all (q == p) (live s.0 p)
  reset_match_cells all q p b (c, done) e = ground (
    arith,
    live-set c q (some (record b { matched = false; added = true })) p e,
    live-set c q (some (record b { matched = false })) p e,
  )

  reset_match_lists :
      (all : Bool) (q p : ℕ) (b : Preblob F) (s : Stored F)
      → live s.0 q ≡ some b
      → count p (reset_match all q b s).1 ≡ count p s.1 + newly_next all (q == p) (live s.0 p)
  reset_match_lists all q p b (c, done) e = ground (arith, count-append p q done)

  reset_match_points :
      (all : Bool) (q : ℕ) (b : Preblob F) (s : Stored F)
      → live s.0 q ≡ some b
      → total points (reset_match all q b s).0 ≡ total points s.0
  reset_match_points all q b (c, done) e = ground (
    arith,
    total-set points c q (some (record b { matched = false; added = true })) e,
    total-set points c q (some (record b { matched = false })) e,
  )

  after_next_twice :
      (all h k : Bool) (o : Option (Preblob F))
      → after_next all k (after_next all h o) ≡ after_next all (h || k) o
  after_next_twice all h k o = ground arith

  newly_next_twice :
      (all h k : Bool) (o : Option (Preblob F))
      → newly_next all h o + newly_next all k (after_next all h o) ≡ newly_next all (h || k) o
  newly_next_twice all h k o = ground arith

  -- Over live preblobs the second loop does not fault, clears their match, and finishes them too
  -- where `all` is set.
  pub store_next-Passed :
      (all : Bool) (rs : List Range) (s : Stored F)
      → ((p : ℕ) → has p rs ≡ true → is_live (live s.0 p) ≡ true)
      → (s' : Stored F) × (store_next all rs s ≡ ok s')
        × Passed (after_next all) (newly_next all) rs s s'
  unfolding store_next
  store_next-Passed all [] s lives = (
    s,
    refl,
    record { cells = λ p. ground arith; lists = λ p. ground arith; keeps_points = refl },
  )
  store_next-Passed all (r ∷ rs) (c, done) lives = elim (Option-cases (live c r.pb)) [
    | inl e ↦ absurd (ground (arith, lives r.pb))
    | inr (b, e) ↦
        let s1 = reset_match all r.pb b (c, done) in
        let (s', run, rest) =
          store_next-Passed all rs s1
            (λ p h. ground (arith, lives p, reset_match_cells all r.pb p b (c, done) e)) in
        (
          s',
          rw e run,
          record {
            cells = λ p. ground (
              arith,
              rest.cells p,
              reset_match_cells all r.pb p b (c, done) e,
              after_next_twice all (r.pb == p) (has p rs) (live c p),
            );
            lists = λ p. ground (
              arith,
              rest.lists p,
              reset_match_cells all r.pb p b (c, done) e,
              reset_match_lists all r.pb p b (c, done) e,
              newly_next_twice all (r.pb == p) (has p rs) (live c p),
            );
            keeps_points = rest.keeps_points ∙ reset_match_points all r.pb b (c, done) e;
          },
        )
  ]
