-- ===== src/Image/Scan/Runs.antt =====
-- The runs of lit pixels of a row, as a list of pixels.
use linux_track.Prelude.{
  ℕ, zero, suc, ◌+◌, ◌*◌, ◌≡◌, ◌≢◌, refl, subst, false, Option, if◌then◌else◌, some, none, List, [],
  ◌∷◌, ◌++◌, ◌==◌, length, u32, arith, append_assoc, length-append,
}
use linux_track.Stripe.{Stripe}
use linux_track.Image.Scan.{lit}

abbrev pub finished : Option Stripe → List Stripe
finished none = []
finished (some s) = record s { points = s.points + 1 } ∷ []

-- The stripes that are closed from column `x` on, with one that is open there or none.
unfoldable pub scan_row : ℕ → ℕ → List ℕ → Option Stripe → List Stripe
scan_row y x [] s = finished s
scan_row y x (v ∷ vs) s =
    (if v == 0 then finished s else [])
    ++ scan_row y (x + 1) vs (if v == 0 then none else some (lit y x v s))

abbrev pub total : List ℕ → ℕ
total [] = 0
total (v ∷ vs) = v + total vs

-- Each value times its place, the first at place `k`.
abbrev pub moment : ℕ → List ℕ → ℕ
moment k [] = 0
moment k (v ∷ vs) = v * k + moment (suc k) vs

-- The stripe of a run of lit pixels from column `x` on: its sum and its sum weighted by the distance from its start.
abbrev pub stripe_of : ℕ → ℕ → ℕ → List ℕ → Stripe
stripe_of y x v vs = record {
  vline = y;
  hstart = x;
  hstop = x + length vs;
  sum_x = u32 (moment 1 vs);
  sum = u32 (v + total vs);
  points = length vs + 1;
}

abbrev pub AllLit : List ℕ → Type 0
AllLit [] = Unit {0}
AllLit (v ∷ vs) = (v ≢ 0) × AllLit vs

-- The row ends, or a dark pixel comes.
abbrev pub Ended : List ℕ → Type 0
Ended [] = Unit {0}
Ended (v ∷ vs) = v ≡ 0

-- The pixels from column `x` on consist of dark ones and of whole runs, whose stripes these are.
pub data Runs (y : ℕ) : ℕ → List ℕ → List Stripe → Type 0 where
  over : {x : ℕ} → Runs y x [] []
  dark : {x : ℕ} {vs : List ℕ} {ss : List Stripe} → Runs y (x + 1) vs ss → Runs y x (0 ∷ vs) ss
  whole :
      {x : ℕ} (v : ℕ) (vs rest : List ℕ) {ss : List Stripe}
      → AllLit (v ∷ vs)
      → Ended rest
      → Runs y (x + length vs + 1) rest ss
      → Runs y x ((v ∷ vs) ++ rest) (stripe_of y x v vs ∷ ss)

total-snoc : (vs : List ℕ) (w : ℕ) → total (vs ++ (w ∷ [])) ≡ total vs + w
total-snoc [] w = omega arith
total-snoc (v ∷ vs) w = omega (arith, total-snoc vs w)

moment-snoc :
    (vs : List ℕ) (w k : ℕ) → moment k (vs ++ (w ∷ [])) ≡ moment k vs + w * (k + length vs)
moment-snoc [] w k = grind arith
moment-snoc (v ∷ vs) w k = grind (arith, moment-snoc vs w (suc k))

AllLit-snoc : (vs : List ℕ) (w : ℕ) → AllLit vs → w ≢ 0 → AllLit (vs ++ (w ∷ []))
AllLit-snoc [] w a b = (b, tt)
AllLit-snoc (v ∷ vs) w a b = (a.0, AllLit-snoc vs w a.1 b)

-- The stripe of an open run.
abbrev open_run : ℕ → ℕ → ℕ → List ℕ → Stripe
open_run y x v vs = record (stripe_of y x v vs) { points = length vs }

lit-open_run :
    (y x v : ℕ) (vs : List ℕ) (w : ℕ)
    → lit y (x + length vs + 1) w (some (open_run y x v vs)) ≡ open_run y x v (vs ++ (w ∷ []))
lit-open_run y x v vs w =
    let n : length (vs ++ (w ∷ [])) ≡ length vs + 1 = length-append vs (w ∷ []) in
    let a : x + length vs + 1 ≡ x + length (vs ++ (w ∷ [])) = omega (arith, n) in
    let b : u32 (u32 (v + total vs) + w) ≡ u32 (v + total (vs ++ (w ∷ []))) =
      omega (arith, total-snoc vs w) in
    let c : u32 (u32 (moment 1 vs) + w * (length vs + 1)) ≡ u32 (moment 1 (vs ++ (w ∷ []))) =
      grind (arith, moment-snoc vs w 1) in
    rw (a, b, c, n) refl

lit-open_run_first : (y x v : ℕ) → lit y x v none ≡ open_run y x v []
lit-open_run_first y x v =
    let a : x + 0 ≡ x = omega arith in let b : v + 0 ≡ v = omega arith in rw (a, b) refl

-- Between runs, and within a run.
Scanned : List ℕ → Type 0
Scanned row =
    ((y x : ℕ) → Runs y x row (scan_row y x row none))
    × ((y x v : ℕ) (vs : List ℕ)
        → AllLit (v ∷ vs)
        → Runs y x ((v ∷ vs) ++ row)
            (scan_row y (x + length vs + 1) row (some (open_run y x v vs))))

Scanned-dark : (row : List ℕ) → Scanned row → Scanned (0 ∷ row)
unfolding Scanned scan_row
Scanned-dark row k = (
  (λ y x. dark (k.0 y (x + 1))),
  λ y x v vs a. whole v vs (0 ∷ row) a refl (dark (k.0 y (x + length vs + 1 + 1))),
)

Scanned-lit : (w : ℕ) (row : List ℕ) → w ≢ 0 → Scanned row → Scanned (w ∷ row)
unfolding Scanned scan_row
Scanned-lit w row ne k =
    let lit' : (w == 0) ≡ false = ground arith in
    (
      (λ y x.
          let z : x + 0 + 1 ≡ x + 1 = omega arith in
          rw (lit', lit-open_run_first y x w)
            (subst (λ c. Runs y x (w ∷ row) (scan_row y c row (some (open_run y x w [])))) z
              (k.1 y x w [] (ne, tt)))),
      λ y x v vs a.
          let n : x + length (vs ++ (w ∷ [])) + 1 ≡ x + length vs + 1 + 1 =
            omega (arith, length-append vs (w ∷ [])) in
          rw (lit', lit-open_run y x v vs w)
            (subst
              (λ r.
                Runs y x (v ∷ r)
                  (scan_row y (x + length vs + 1 + 1) row (some (open_run y x v (vs ++ (w ∷ []))))))
              (append_assoc vs (w ∷ []) row)
              (subst
                (λ c.
                  Runs y x ((v ∷ (vs ++ (w ∷ []))) ++ row)
                    (scan_row y c row (some (open_run y x v (vs ++ (w ∷ []))))))
                n (k.1 y x v (vs ++ (w ∷ [])) (a.0, AllLit-snoc vs w a.1 ne)))),
    )

scan_row-Scanned : (row : List ℕ) → Scanned row
unfolding Scanned scan_row
scan_row-Scanned [] = ((λ y x. over), λ y x v vs a. whole v vs [] a tt over)
scan_row-Scanned (zero ∷ row) = Scanned-dark row (scan_row-Scanned row)
scan_row-Scanned (suc w ∷ row) = Scanned-lit (suc w) row (λ e. omega arith) (scan_row-Scanned row)

pub scan_row-Runs : (y : ℕ) (row : List ℕ) → Runs y 0 row (scan_row y 0 row none)
unfolding Scanned
scan_row-Runs y row = (scan_row-Scanned row).0 y 0
