-- ===== src/Image/Tracker/Place.antt =====
-- The last part of `ltr_int_add_stripe`, and the whole of it after the drawing: a stripe is added to one preblob, its
-- range to the line, and every point is accounted for.
use linux_track.Prelude.{
  ℕ, ◌+◌, ◌<◌, ◌≡◌, refl, ◌∙◌, true, false, Option, none, some, List, [], ◌∷◌, ◌++◌, ◌==◌,
  if◌then◌else◌, arith, inl, inr, Option-cases, u32, length, length-append, lt→ltb,
}
use linux_track.Prelude.Exec.{ok}
use linux_track.Prelude.Cells.{
  live, live-set, live-alloc, live-length, store, alloc, total, total-set, total-alloc,
}
use linux_track.Prelude.Float.{FloatOps}
use linux_track.Stripe.{Stripe}
use linux_track.Image.Tracker.{
  Preblob, Range, Tracker, add_stripe_to_preblob, preblob_from_stripe, add_range, place,
  track_stripe,
}
use linux_track.Image.Tracker.Gather.{Inv-MatchInv, match_ranges-Matched}
use linux_track.Image.Tracker.Inv.{Inv, has-append}
use linux_track.Image.Tracker.Line.{change_line-OnLine}
use linux_track.Image.Tracker.Match.{MatchInv}
use linux_track.Image.Tracker.Store.{points}

module _ (fl : FloatOps) where
  open fl use {F}

  abbrev new_range : Stripe → ℕ → Range
  new_range s p = record { x1 = s.hstart; x2 = s.hstop; pb = p }

  -- The tracker with cells `c` in which `p` has the new range.
  abbrev placed : Stripe → ℕ → List (Option (Preblob F)) → Tracker F → Tracker F
  placed s p c t = record t { cells = c; next = t.next ++ (new_range s p ∷ []) }

  -- What a call leaves behind.
  pub record Placed (s : Stripe) (t t' : Tracker F) : Type 0 where
    pub valid : Inv t'
    pub adds_points : u32 (total points t'.cells) ≡ u32 (total points t.cells + s.points)
    pub next : length t'.next ≡ length t.next + 1
    pub capacity : t'.capacity ≡ t.capacity
    pub current_vline : t'.current_vline ≡ t.current_vline

  module _ (s : Stripe) (t : Tracker F) where
    abbrev fresh : List (Option (Preblob F))
    fresh = alloc t.cells (preblob_from_stripe fl s)

    new_flags :
        ((preblob_from_stripe fl s).added ≡ false)
        × ((preblob_from_stripe fl s).matched ≡ true)
        × ((preblob_from_stripe fl s).points ≡ s.points)
    unfolding preblob_from_stripe
    new_flags = (refl, refl, refl)

    fresh-Placed : MatchInv t none → Placed s t (placed s (length t.cells) fresh t)
    fresh-Placed v = record {
      valid = record {
        current_open = λ x h. ground (arith, at x, v.current_open x, unused);
        next_ready =
            λ x h. ground (arith, at x, new_flags, v.next_ready x, unused, has-append x new t.next);
        ready_next = λ x h. ground (arith, at x, v.ready_next x, has-append x new t.next);
        listed = λ x. ground (arith, at x, new_flags, v.listed x, unused);
        owned = λ x h. ground (arith, at x, v.owned x, has-append x new t.next);
      };
      adds_points =
          omega (arith, new_flags.2, total-alloc points t.cells (preblob_from_stripe fl s));
      next = omega (arith, length-append t.next (new ∷ []));
      capacity = refl;
      current_vline = refl;
    }
      where
        new : Range
        new = new_range s (length t.cells)

        at :
            (x : ℕ)
            → live fresh x
              ≡ (if length t.cells == x then some (preblob_from_stripe fl s) else live t.cells x)
        at x = live-alloc t.cells (preblob_from_stripe fl s) x

        unused : live t.cells (length t.cells) ≡ none
        unused = live-length t.cells

    module _ (p : ℕ) (b : Preblob F) (e : live t.cells p ≡ some b) where
      abbrev grown : List (Option (Preblob F))
      grown = store t.cells p (add_stripe_to_preblob fl b s)

      grown_flags :
          ((add_stripe_to_preblob fl b s).added ≡ b.added)
          × ((add_stripe_to_preblob fl b s).matched ≡ b.matched)
          × ((add_stripe_to_preblob fl b s).points ≡ u32 (b.points + s.points))
      unfolding add_stripe_to_preblob
      grown_flags = (refl, refl, refl)

      grown-Placed : MatchInv t (some p) → Placed s t (placed s p grown t)
      grown-Placed v = record {
        valid = record {
          current_open = λ x h. ground (arith, at x, grown_flags, v.current_open x);
          next_ready = λ x h. ground (
            arith,
            at x,
            grown_flags,
            v.next_ready x,
            v.rng_ready p refl,
            has-append x (new_range s p) t.next,
          );
          ready_next = λ x h.
              ground
                (arith, at x, grown_flags, v.ready_next x, has-append x (new_range s p) t.next);
          listed = λ x. ground (arith, at x, grown_flags, v.listed x);
          owned = λ x h.
              ground (arith, at x, grown_flags, v.owned x, has-append x (new_range s p) t.next);
        };
        adds_points = omega (
          arith,
          grown_flags.2,
          total-set points t.cells p (some (add_stripe_to_preblob fl b s)) e,
        );
        next = omega (arith, length-append t.next (new_range s p ∷ []));
        capacity = refl;
        current_vline = refl;
      }
        where
          at :
              (x : ℕ)
              → live grown x
                ≡ (if p == x then some (add_stripe_to_preblob fl b s) else live t.cells x)
          at x = live-set t.cells p (some (add_stripe_to_preblob fl b s)) x e

  place-Placed :
      (s : Stripe) (rng : Option ℕ) (t : Tracker F)
      → MatchInv t rng
      → length t.next < t.capacity
      → (t' : Tracker F) × (place fl s rng t ≡ ok t') × Placed s t t'
  unfolding place add_range
  place-Placed s none t v room =
      (placed s (length t.cells) (fresh s t) t, rw (lt→ltb _ _ room) refl, fresh-Placed s t v)
  place-Placed s (some p) t v room = elim (Option-cases (live t.cells p)) [
    | inl e ↦ absurd (ground (arith, v.rng_ready p refl))
    | inr (b, e) ↦
        (placed s p (grown s t p b e) t, rw (e, lt→ltb _ _ room) refl, grown-Placed s t p b e v)
  ]

  -- What a call of `ltr_int_add_stripe` leaves behind.
  pub record Tracked (s : Stripe) (t t' : Tracker F) : Type 0 where
    pub valid : Inv t'
    pub adds_points : u32 (total points t'.cells) ≡ u32 (total points t.cells + s.points)
    pub next : length t'.next ≡ (if t.current_vline == s.vline then length t.next else 0) + 1
    pub capacity : t'.capacity ≡ t.capacity
    pub current_vline : t'.current_vline ≡ s.vline

  pub track_stripe-Tracked :
      (s : Stripe) (t : Tracker F)
      → Inv t
      → (if t.current_vline == s.vline then length t.next else 0) < t.capacity
      → (t' : Tracker F) × (track_stripe fl s t ≡ ok t') × Tracked s t t'
  unfolding track_stripe
  track_stripe-Tracked s t v room =
      let (t1, run1, line) = change_line-OnLine s.vline t v in
      let (m, run2, v2, same) =
        match_ranges-Matched fl s (length t1.current) 0 (record { tracker = t1; rng = none })
          (Inv-MatchInv line.valid) (omega arith) in
      let (t3, run3, done) =
        place-Placed s m.rng m.tracker v2
          (ground (arith, same.next, same.capacity, line.next, line.capacity)) in
      (
        t3,
        rw (run1, run2) run3,
        record {
          valid = done.valid;
          adds_points = omega (arith, done.adds_points, same.keeps_points, line.keeps_points);
          next = ground (arith, done.next, same.next, line.next);
          capacity = done.capacity ∙ same.capacity ∙ line.capacity;
          current_vline = done.current_vline ∙ same.current_vline ∙ line.current_vline;
        },
      )
