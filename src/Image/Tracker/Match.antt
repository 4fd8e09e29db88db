-- ===== src/Image/Tracker/Match.antt =====
-- The matching of a stripe with the line above it: touching, merging and freeing keep the invariant.
use linux_track.Prelude.{
  ℕ, zero, suc, ◌+◌, ◌≡◌, ◌≢◌, refl, ◌∙◌, ap, true, false, ◌||◌, Option, none, some, List, [], ◌∷◌,
  map, ◌==◌, if◌then◌else◌, arith, u32, length, get_elem?,
}
use linux_track.Prelude.Cells.{live, live-set, store, total, total-set}
use linux_track.Prelude.Float.{FloatOps}
use linux_track.Image.Tracker.{Preblob, Range, Tracker, finished, redirect, merge_preblobs, absorb}
use linux_track.Image.Tracker.Inv.{has, count, is_open, is_ready, is_finished, has-redirect}
use linux_track.Image.Tracker.Store.{points}

-- The invariant between two rounds of the matching loop: as `Inv`, but the preblob that `rng` points
-- to is matched before its new range is in `next`.
pub record MatchInv {F : Type 0} (t : Tracker F) (rng : Option ℕ) : Type 0 where
  pub current_open : (p : ℕ) → has p t.current ≡ true → is_open (live t.cells p) ≡ true
  pub next_ready : (p : ℕ) → has p t.next ≡ true → is_ready (live t.cells p) ≡ true
  pub ready_next : (p : ℕ) → is_ready (live t.cells p) ≡ true → has p t.next ≡ false → rng ≡ some p
  pub rng_ready : (p : ℕ) → rng ≡ some p → is_ready (live t.cells p) ≡ true
  pub listed :
      (p : ℕ) → count p (finished t.preblobs) ≡ (if is_finished (live t.cells p) then 1 else 0)
  pub owned : (p : ℕ) → is_open (live t.cells p) ≡ true → (has p t.current || has p t.next) ≡ true
  -- What was touched is in the line above.
  pub rng_current : (p : ℕ) → rng ≡ some p → has p t.current ≡ true

-- What the matching may change and what not.
pub record SameLine {F : Type 0} (t t' : Tracker F) : Type 0 where
  pub keeps_points : u32 (total points t'.cells) ≡ u32 (total points t.cells)
  pub current : length t'.current ≡ length t.current
  pub next : length t'.next ≡ length t.next
  pub capacity : t'.capacity ≡ t.capacity
  pub current_vline : t'.current_vline ≡ t.current_vline

pub SameLine-trans : {F : Type 0} {a b c : Tracker F} → SameLine a b → SameLine b c → SameLine a c
SameLine-trans h k = record {
  keeps_points = k.keeps_points ∙ h.keeps_points;
  current = k.current ∙ h.current;
  next = k.next ∙ h.next;
  capacity = k.capacity ∙ h.capacity;
  current_vline = k.current_vline ∙ h.current_vline;
}

length-map {ℓ} : {A B : Type ℓ} (f : A → B) (xs : List A) → length (map f xs) ≡ length xs
length-map f [] = refl
length-map f (x ∷ xs) = ap suc (length-map f xs)

pub has-get : (rs : List Range) (i : ℕ) {r : Range} → get_elem? rs i ≡ some r → has r.pb rs ≡ true
has-get [] i e = cc
has-get (x ∷ rs) zero e = ground arith
has-get (x ∷ rs) (suc i) e = let h = has-get rs i e in ground arith

module _ (fl : FloatOps) where
  open fl use {F}

  -- The preblob `p`, just marked as matched.
  abbrev pub marked : Tracker F → ℕ → Preblob F → Tracker F
  marked t p b = record t { cells = store t.cells p (record b { matched = true }) }

  module _ (t : Tracker F) (p : ℕ) (b : Preblob F) (e : live t.cells p ≡ some b)
      (here : has p t.current ≡ true) where
    pub marked_cells :
        (x : ℕ)
        → live (marked t p b).cells x
          ≡ (if p == x then some (record b { matched = true }) else live t.cells x)
    marked_cells x = live-set t.cells p (some (record b { matched = true })) x e

    pub marked-SameLine : SameLine t (marked t p b)
    marked-SameLine = record {
      keeps_points =
          omega (arith, total-set points t.cells p (some (record b { matched = true })) e);
      current = refl;
      next = refl;
      capacity = refl;
      current_vline = refl;
    }

    -- Where nothing was touched before, `p` becomes what `rng` points to.
    pub marked_first : MatchInv t none → MatchInv (marked t p b) (some p)
    marked_first v = record {
      current_open = λ x h. ground (arith, marked_cells x, v.current_open x, v.current_open p);
      next_ready = λ x h. ground (arith, marked_cells x, v.next_ready x, v.next_ready p);
      ready_next = λ x h k. ground (arith, marked_cells x, v.ready_next x);
      rng_ready = λ x h. ground (arith, marked_cells x, v.current_open p);
      listed = λ x. ground (arith, marked_cells x, v.listed x, v.listed p);
      owned = λ x h. ground (arith, marked_cells x, v.owned x);
      rng_current = λ x h. ground arith;
    }

    pub marked_again :
        (q : ℕ) → (q == p) ≡ true → MatchInv t (some q) → MatchInv (marked t p b) (some q)
    marked_again q same v = record {
      current_open = λ x h. ground (arith, marked_cells x, v.current_open x, v.current_open p);
      next_ready = λ x h. ground (arith, marked_cells x, v.next_ready x, v.next_ready p);
      ready_next = λ x h k. ground (arith, marked_cells x, v.ready_next x);
      rng_ready = λ x h. ground (arith, marked_cells x, v.current_open p);
      listed = λ x. ground (arith, marked_cells x, v.listed x, v.listed p);
      owned = λ x h. ground (arith, marked_cells x, v.owned x);
      rng_current = λ x h. v.rng_current x h;
    }

    pub p_marked : live (marked t p b).cells p ≡ some (record b { matched = true })
    p_marked = ground (arith, marked_cells p)

    -- Where another preblob `q` was touched before, `p` is merged into it and freed.
    module _ (q : ℕ) (bq : Preblob F) (eq : live t.cells q ≡ some bq)
        (apart : (q == p) ≡ false) where
      abbrev pub merged : Preblob F
      merged = merge_preblobs fl bq (record b { matched = true })

      abbrev pub joined : Tracker F
      joined = absorb fl q p bq (record b { matched = true }) (marked t p b)

      pub q_marked : live (marked t p b).cells q ≡ some bq
      q_marked = ground (arith, marked_cells q)

      p_stored : live (store (marked t p b).cells q merged) p ≡ some (record b { matched = true })
      p_stored =
          ground (arith, marked_cells p, live-set (marked t p b).cells q (some merged) p q_marked)

      joined_cells :
          (x : ℕ)
          → live joined.cells x
            ≡ (if p == x then none else if q == x then some merged else live t.cells x)
      joined_cells x = ground (
        arith,
        marked_cells x,
        live-set (marked t p b).cells q (some merged) x q_marked,
        live-set (store (marked t p b).cells q merged) p none x p_stored,
      )

      merged_points : merged.points ≡ u32 (bq.points + b.points)
      unfolding merge_preblobs
      merged_points = refl

      merged_flags : (merged.added ≡ bq.added) × (merged.matched ≡ bq.matched)
      unfolding merge_preblobs
      merged_flags = (refl, refl)

      pub joined-SameLine : SameLine t joined
      joined-SameLine = record {
        keeps_points = omega (
          arith,
          merged_points,
          total-set points t.cells p (some (record b { matched = true })) e,
          total-set points (marked t p b).cells q (some merged) q_marked,
          total-set points (store (marked t p b).cells q merged) p none p_stored,
        );
        current = length-map (redirect p q) t.current;
        next = length-map (redirect p q) t.next;
        capacity = refl;
        current_vline = refl;
      }

      pub joined-MatchInv : MatchInv t (some q) → MatchInv joined (some q)
      joined-MatchInv v = record {
        current_open = λ x h. ground (
          arith,
          joined_cells x,
          merged_flags,
          v.rng_ready q refl,
          v.current_open x,
          has-redirect x p q t.current ne,
        );
        next_ready = λ x h. ground (
          arith,
          joined_cells x,
          merged_flags,
          v.rng_ready q refl,
          v.next_ready x,
          has-redirect x p q t.next ne,
        );
        ready_next =
            λ x h k. ground (arith, joined_cells x, v.ready_next x, has-redirect x p q t.next ne);
        rng_ready = λ x h. ground (arith, joined_cells x, merged_flags, v.rng_ready q refl);
        listed = λ x. ground (
          arith,
          joined_cells x,
          merged_flags,
          v.rng_ready q refl,
          v.listed x,
          v.current_open p here,
        );
        owned = λ x h. ground (
          arith,
          joined_cells x,
          v.owned x,
          has-redirect x p q t.current ne,
          has-redirect x p q t.next ne,
          v.rng_current q refl,
        );
        rng_current = λ x h. ground (arith, has-redirect x p q t.current ne, v.rng_current q refl);
      }
        where
          ne : p ≢ q
          ne = ground arith
