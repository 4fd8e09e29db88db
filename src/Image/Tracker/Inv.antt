-- ===== src/Image/Tracker/Inv.antt =====
-- What holds of the blob tracker between two stripes: no range points to a freed or finished
-- preblob, none is finished twice, and none is lost.
use linux_track.Prelude.{
  ℕ, ◌+◌, ◌≡◌, Bool, true, false, not, ◌&&◌, ◌||◌, Option, none, some, List, [], ◌∷◌, ◌++◌, map,
  ◌==◌, if◌then◌else◌, arith, ◌≢◌,
}
use linux_track.Prelude.Cells.{live, live-nil}
use linux_track.Image.Tracker.{Preblob, Range, Tracker, finished, redirect, prepared}

-- Some range of the list points to the preblob.
abbrev pub has : ℕ → List Range → Bool
has p [] = false
has p (r ∷ rs) = (r.pb == p) || has p rs

abbrev pub count : ℕ → List ℕ → ℕ
count p [] = 0
count p (q ∷ qs) = (if q == p then 1 else 0) + count p qs

module _ {F : Type 0} where
  -- Still being gathered.
  abbrev pub is_open : Option (Preblob F) → Bool
  is_open none = false
  is_open (some b) = not b.added

  -- Touched by a stripe of the current line.
  abbrev pub is_ready : Option (Preblob F) → Bool
  is_ready none = false
  is_ready (some b) = not b.added && b.matched

  abbrev pub is_finished : Option (Preblob F) → Bool
  is_finished none = false
  is_finished (some b) = b.added

  pub record Inv (t : Tracker F) : Type 0 where
    pub current_open : (p : ℕ) → has p t.current ≡ true → is_open (live t.cells p) ≡ true
    pub next_ready : (p : ℕ) → has p t.next ≡ true → is_ready (live t.cells p) ≡ true
    pub ready_next : (p : ℕ) → is_ready (live t.cells p) ≡ true → has p t.next ≡ true
    -- The finished preblobs are listed once each, and nothing else is listed.
    pub listed :
        (p : ℕ) → count p (finished t.preblobs) ≡ (if is_finished (live t.cells p) then 1 else 0)
    -- An open preblob is reached from a range, so that it will be finished.
    pub owned : (p : ℕ) → is_open (live t.cells p) ≡ true → (has p t.current || has p t.next) ≡ true

pub prepared-Inv : {F : Type 0} (w : ℕ) → Inv (prepared {F = F} w)
prepared-Inv {F} w = record {
  current_open = λ p h. cc;
  next_ready = λ p h. cc;
  ready_next = λ p h. ground (arith, live-nil {A = Preblob F} p);
  listed = λ p. ground (arith, live-nil {A = Preblob F} p);
  owned = λ p h. ground (arith, live-nil {A = Preblob F} p);
}

pub count-append :
    (p q : ℕ) (qs : List ℕ) → count p (qs ++ (q ∷ [])) ≡ count p qs + (if q == p then 1 else 0)
count-append p q [] = ground arith
count-append p q (x ∷ qs) = omega (arith, count-append p q qs)

pub has-append :
    (p : ℕ) (r : Range) (rs : List Range) → has p (rs ++ (r ∷ [])) ≡ (has p rs || (r.pb == p))
has-append p r [] = ground arith
has-append p r (x ∷ rs) = ground (arith, has-append p r rs)

-- After a merge the survivor `q` has the ranges of both, and nothing points to `m`.
pub has-redirect :
    (p m q : ℕ) (rs : List Range)
    → m ≢ q
    → has p (map (redirect m q) rs)
      ≡ (if p == m then false else if p == q then has q rs || has m rs else has p rs)
has-redirect p m q [] ne = ground arith
has-redirect p m q (r ∷ rs) ne = ground (arith, has-redirect p m q rs ne)
