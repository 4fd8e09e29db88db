-- ===== src/Image/Tracker/Gather.antt =====
-- One call of `ltr_int_add_stripe`: it does not fault, keeps the invariant and loses no pixel.
use linux_track.Prelude.{
  ℕ, zero, suc, ◌+◌, ◌≤◌, ◌<◌, ◌≡◌, refl, true, Option, none, some, ◌==◌, arith, inl, inr,
  Bool-cases, Option-cases, length, get_elem?, get_elem?-ne-none,
}
use linux_track.Prelude.Exec.{Exec, ok}
use linux_track.Prelude.Cells.{live}
use linux_track.Prelude.Float.{FloatOps}
use linux_track.Stripe.{Stripe}
use linux_track.Image.Tracker.{
  Preblob, Tracker, Matching, stripe_in_range, join, touch, match_range, match_ranges,
}
use linux_track.Image.Tracker.Inv.{has, Inv}
use linux_track.Image.Tracker.Match.{
  MatchInv, SameLine, SameLine-trans, has-get, marked, marked-SameLine, marked_first, marked_again,
  q_marked, p_marked, joined-SameLine, joined-MatchInv, joined,
}

SameLine-refl : {F : Type 0} (t : Tracker F) → SameLine t t
SameLine-refl t = record {
  keeps_points = refl;
  current = refl;
  next = refl;
  capacity = refl;
  current_vline = refl;
}

pub Inv-MatchInv : {F : Type 0} {t : Tracker F} → Inv t → MatchInv t none
Inv-MatchInv v = record {
  current_open = v.current_open;
  next_ready = v.next_ready;
  ready_next = λ p h k. ground (arith, v.ready_next p h);
  rng_ready = λ p h. cc;
  listed = v.listed;
  owned = v.owned;
  rng_current = λ p h. cc;
}

module _ (fl : FloatOps) where
  open fl use {F}

  -- A run of the matching from `t` does not fault, keeps the invariant, and leaves the line as it is.
  abbrev pub Matched : Tracker F → Exec (Matching F) → Type 0
  Matched t e = (m : Matching F) × (e ≡ ok m) × MatchInv m.tracker m.rng × SameLine t m.tracker

  touch-Matched :
      (t : Tracker F) (rng : Option ℕ) (p : ℕ)
      → MatchInv t rng
      → has p t.current ≡ true
      → Matched t (touch fl (record { tracker = t; rng = rng }) p)
  unfolding touch join
  touch-Matched t rng p v here = elim (Option-cases (live t.cells p)) [
    | inl e ↦ absurd (ground (arith, v.current_open p here))
    | inr (b, e) ↦ rw e (by_rng rng b e v)
  ]
    where
      by_rng :
          (rng' : Option ℕ) (b : Preblob F)
          → live t.cells p ≡ some b
          → MatchInv t rng'
          → Matched t (join fl p rng' (marked fl t p b))
      by_rng none b e v' = (
        record { tracker = marked fl t p b; rng = some p },
        refl,
        marked_first fl t p b e here v',
        marked-SameLine fl t p b e here,
      )
      by_rng (some q) b e v' = elim (Bool-cases (q == p)) [
        | inl same ↦ (
          record { tracker = marked fl t p b; rng = some q },
          rw same refl,
          marked_again fl t p b e here q same v',
          marked-SameLine fl t p b e here,
        )
        | inr apart ↦ elim (Option-cases (live t.cells q)) [
          | inl gone ↦ absurd (ground (arith, v'.rng_ready q refl))
          | inr (bq, eq) ↦ (
            record { tracker = joined fl t p b e here q bq eq apart; rng = some q },
            rw (apart, q_marked fl t p b e here q bq eq apart, p_marked fl t p b e here) refl,
            joined-MatchInv fl t p b e here q bq eq apart v',
            joined-SameLine fl t p b e here q bq eq apart,
          )
        ]
      ]

  match_range-Matched :
      (s : Stripe) (i : ℕ) (m : Matching F)
      → MatchInv m.tracker m.rng
      → i < length m.tracker.current
      → Matched m.tracker (match_range fl s i m)
  unfolding match_range
  match_range-Matched s i m v inside = elim (Option-cases (get_elem? m.tracker.current i)) [
    | inl e ↦ absurd (get_elem?-ne-none m.tracker.current i inside e)
    | inr (r, e) ↦ rw e (elim (Bool-cases (stripe_in_range s r)) [
      | inl touches ↦
          rw touches (touch-Matched m.tracker m.rng r.pb v (has-get m.tracker.current i e))
      | inr misses ↦ rw misses (m, refl, v, SameLine-refl m.tracker)
    ])
  ]

  pub match_ranges-Matched :
      (s : Stripe) (n i : ℕ) (m : Matching F)
      → MatchInv m.tracker m.rng
      → i + n ≤ length m.tracker.current
      → Matched m.tracker (match_ranges fl s n i m)
  unfolding match_ranges
  match_ranges-Matched s zero i m v inside = (m, refl, v, SameLine-refl m.tracker)
  match_ranges-Matched s (suc n) i m v inside =
      let (m1, run1, v1, same1) = match_range-Matched s i m v (omega arith) in
      let (m2, run2, v2, same2) =
        match_ranges-Matched s n (i + 1) m1 v1 (omega (arith, same1.current)) in
      (m2, rw run1 run2, v2, SameLine-trans same1 same2)
