-- ===== src/Image/Blobs/Points.antt =====
-- The points of the preblobs that were found are those of all preblobs.
use linux_track.Prelude.{ℕ, ◌+◌, ◌≡◌, sym, Option, none, List, [], ◌∷◌, if◌then◌else◌, arith}
use linux_track.Prelude.Cells.{live, free, total, total-none, total-set}
use linux_track.Image.Tracker.{Preblob}
use linux_track.Image.Tracker.Inv.{count}
use linux_track.Image.Tracker.Store.{is_live, points}
use linux_track.Image.Blobs.Found.{AllAt, nil, cons, live-free}

module _ {F : Type 0} where
  abbrev pub sum_points : List (Preblob F) → ℕ
  sum_points [] = 0
  sum_points (b ∷ bs) = b.points + sum_points bs

  AllAt-free :
      (c : List (Option (Preblob F))) (p : ℕ) (ps : List ℕ) (bs : List (Preblob F))
      → count p ps ≡ 0
      → AllAt c ps bs
      → AllAt (free c p) ps bs
  AllAt-free c p [] _ e nil = nil
  AllAt-free c p (_ ∷ _) _ e (cons q ps b bs at all) =
      cons q ps b bs (ground (arith, live-free c p q, at, e))
        (AllAt-free c p ps bs (ground (arith, e)) all)

  pub sum_points-AllAt :
      (c : List (Option (Preblob F))) (ps : List ℕ) (bs : List (Preblob F))
      → ((p : ℕ) → count p ps ≡ (if is_live (live c p) then 1 else 0))
      → AllAt c ps bs
      → sum_points bs ≡ total points c
  sum_points-AllAt c [] _ once nil = sym (total-none points c (λ p. ground (arith, once p)))
  sum_points-AllAt c (_ ∷ ps) _ once (cons p _ b bs at all) =
      let alone : count p ps ≡ 0 = ground (arith, once p, at) in
      let rest =
        sum_points-AllAt (free c p) ps bs (λ q. ground (arith, once q, alone, live-free c p q))
          (AllAt-free c p ps bs alone all) in
      omega (arith, rest, total-set points c p none at)
