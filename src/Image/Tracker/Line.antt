-- ===== src/Image/Tracker/Line.antt =====
-- `store_preblobs` and the change of line keep the invariant.
use linux_track.Prelude.{
  ℕ, ◌+◌, ◌≡◌, refl, ◌∙◌, Bool, true, false, some, [], ◌==◌, if◌then◌else◌, arith, inl, inr,
  Bool-cases, u32,
}
use linux_track.Prelude.Exec.{ok}
use linux_track.Prelude.Cells.{live, total}
use linux_track.Image.Tracker.{Tracker, finished, store_preblobs, change_line}
use linux_track.Image.Tracker.Inv.{has, count, Inv}
use linux_track.Image.Tracker.Store.{
  points, after_current, after_next, newly_current, newly_next, store_current-Passed,
  store_next-Passed,
}

module _ {F : Type 0} where
  -- What `store_preblobs` made of a tracker.
  pub record Swept (all : Bool) (t t' : Tracker F) : Type 0 where
    pub cells :
        (p : ℕ)
        → live t'.cells p
          ≡ after_next all (has p t.next) (after_current (has p t.current) (live t.cells p))
    pub lists :
        (p : ℕ)
        → count p (finished t'.preblobs)
          ≡ count p (finished t.preblobs)
            + newly_current (has p t.current) (live t.cells p)
            + newly_next all (has p t.next) (after_current (has p t.current) (live t.cells p))
    pub keeps_points : total points t'.cells ≡ total points t.cells
    pub current : t'.current ≡ t.current
    pub next : t'.next ≡ t.next
    pub capacity : t'.capacity ≡ t.capacity
    pub current_vline : t'.current_vline ≡ t.current_vline
    pub stored : t'.preblobs ≡ some (finished t'.preblobs)

  pub store_preblobs-Swept :
      (all : Bool) (t : Tracker F)
      → Inv t
      → (t' : Tracker F) × (store_preblobs all t ≡ ok t') × Swept all t t'
  unfolding store_preblobs
  store_preblobs-Swept all t v =
      let (s1, run1, one) =
        store_current-Passed t.current (t.cells, finished t.preblobs)
          (λ p h. ground (arith, v.current_open p h)) in
      let (s2, run2, two) =
        store_next-Passed all t.next s1 (λ p h. ground (arith, one.cells p, v.next_ready p h)) in
      (
        record t { cells = s2.0; preblobs = some s2.1 },
        rw (run1, run2) refl,
        record {
          cells = λ p. ground (arith, one.cells p, two.cells p);
          lists = λ p. ground (arith, one.cells p, one.lists p, two.lists p);
          keeps_points = two.keeps_points ∙ one.keeps_points;
          current = refl;
          next = refl;
          capacity = refl;
          current_vline = refl;
          stored = refl;
        },
      )

  module _ {t t' : Tracker F} (v : Inv t) where
    -- With the arrays swapped, after `store_preblobs(false)`.
    Inv-next_line :
        (vline : ℕ)
        → Swept false t t'
        → Inv (record t' { current = t'.next; next = []; current_vline = vline })
    Inv-next_line vline w = record {
      current_open = λ p h. ground (arith, w.cells p, w.next, v.next_ready p, v.current_open p);
      next_ready = λ p h. cc;
      ready_next = λ p h.
          ground (arith, w.cells p, v.next_ready p, v.current_open p, v.owned p, v.ready_next p);
      listed = λ p. ground (
        arith,
        w.cells p,
        w.lists p,
        v.listed p,
        v.next_ready p,
        v.current_open p,
        v.owned p,
        v.ready_next p,
      );
      owned = λ p h. ground (
        arith,
        w.cells p,
        w.next,
        v.listed p,
        v.next_ready p,
        v.current_open p,
        v.owned p,
        v.ready_next p,
      );
    }

    -- With both arrays emptied, after `store_preblobs(true)`: no preblob is left open.
    pub Inv-no_line :
        (vline : ℕ)
        → Swept true t t'
        → Inv (record t' { current = []; next = []; current_vline = vline })
    Inv-no_line vline w = record {
      current_open = λ p h. cc;
      next_ready = λ p h. cc;
      ready_next = λ p h.
          ground (arith, w.cells p, v.next_ready p, v.current_open p, v.owned p, v.ready_next p);
      listed = λ p. ground (
        arith,
        w.cells p,
        w.lists p,
        v.listed p,
        v.next_ready p,
        v.current_open p,
        v.owned p,
        v.ready_next p,
      );
      owned = λ p h. ground (
        arith,
        w.cells p,
        v.listed p,
        v.next_ready p,
        v.current_open p,
        v.owned p,
        v.ready_next p,
      );
    }

  -- What the change to a line guarantees to the code behind it.
  pub record OnLine (vline : ℕ) (t t' : Tracker F) : Type 0 where
    pub valid : Inv t'
    pub keeps_points : total points t'.cells ≡ total points t.cells
    pub capacity : t'.capacity ≡ t.capacity
    pub current_vline : t'.current_vline ≡ vline
    -- A new line begins with no range.
    pub next : t'.next ≡ (if t.current_vline == vline then t.next else [])

  pub change_line-OnLine :
      (vline : ℕ) (t : Tracker F)
      → Inv t
      → (t' : Tracker F) × (change_line vline t ≡ ok t') × OnLine vline t t'
  unfolding change_line
  change_line-OnLine vline t v = elim (Bool-cases (t.current_vline == vline)) [
    | inl same ↦ (
      t,
      rw same refl,
      record {
        valid = v;
        keeps_points = refl;
        capacity = refl;
        current_vline = ground arith;
        next = ground arith;
      },
    )
    | inr other ↦ elim (Bool-cases (u32 (t.current_vline + 1) == vline)) [
      | inl follows ↦
          let (t', run, w) = store_preblobs-Swept false t v in
          (
            record t' { current = t'.next; next = []; current_vline = vline },
            rw (other, follows, run) refl,
            record {
              valid = Inv-next_line v vline w;
              keeps_points = w.keeps_points;
              capacity = w.capacity;
              current_vline = refl;
              next = rw other refl;
            },
          )
      | inr apart ↦
          let (t', run, w) = store_preblobs-Swept true t v in
          (
            record t' { current = []; next = []; current_vline = vline },
            rw (other, apart, run) refl,
            record {
              valid = Inv-no_line v vline w;
              keeps_points = w.keeps_points;
              capacity = w.capacity;
              current_vline = refl;
              next = rw other refl;
            },
          )
    ]
  ]
