-- ===== src/Prelude/Cells.antt =====
-- Objects on the C heap: the address of an object is its index, and a freed object leaves `none`.
use Prim.Native.Nat.{ℕ, zero, suc, ◌+◌, ◌<◌}
use mathlib.Core.Path.{◌≡◌, refl}
use mathlib.Core.List.{List, [], ◌∷◌, ◌++◌}
use mathlib.Core.Option.{Option, none, some}
use native.Mathlib.Omega.{arith}
use linux_track.Prelude.Tests.{◌==◌, if◌then◌else◌}
use linux_track.Prelude.Lists.{length, set}
use linux_track.Prelude.Exec.{Exec, to_exec}

module _ {A : Type 0} where
  unfoldable pub live : List (Option A) → ℕ → Option A
  live [] p = none
  live (o ∷ c) zero = o
  live (o ∷ c) (suc p) = live c p

  pub live-nil : (p : ℕ) → live [] p ≡ none
  unfolding live
  live-nil p = refl

  -- `*p`, a fault where nothing lives.
  abbrev pub load : List (Option A) → ℕ → Exec A
  load c p = to_exec (live c p)

  abbrev pub store : List (Option A) → ℕ → A → List (Option A)
  store c p a = set c p (some a)

  abbrev pub free : List (Option A) → ℕ → List (Option A)
  free c p = set c p none

  abbrev pub alloc : List (Option A) → A → List (Option A)
  alloc c a = c ++ (some a ∷ [])

  pub live-lt-length : (c : List (Option A)) (p : ℕ) {a : A} → live c p ≡ some a → p < length c
  unfolding live
  live-lt-length [] p e = cc
  live-lt-length (o ∷ c) zero e = omega arith
  live-lt-length (o ∷ c) (suc p) e = omega (arith, live-lt-length c p e)

  live-set_bound :
      (c : List (Option A)) (p : ℕ) (o : Option A) (q : ℕ)
      → p < length c
      → live (set c p o) q ≡ (if p == q then o else live c q)
  unfolding live
  live-set_bound [] p o q h = absurd (omega arith)
  live-set_bound (x ∷ c) zero o zero h = refl
  live-set_bound (x ∷ c) zero o (suc q) h = ground arith
  live-set_bound (x ∷ c) (suc p) o zero h = ground arith
  live-set_bound (x ∷ c) (suc p) o (suc q) h = ground (arith, live-set_bound c p o q)

  -- Writing or freeing a live object changes what lives at its address only.
  pub live-set :
      (c : List (Option A)) (p : ℕ) (o : Option A) (q : ℕ) {a : A}
      → live c p ≡ some a
      → live (set c p o) q ≡ (if p == q then o else live c q)
  live-set c p o q e = live-set_bound c p o q (live-lt-length c p e)

  pub live-alloc :
      (c : List (Option A)) (a : A) (q : ℕ)
      → live (alloc c a) q ≡ (if length c == q then some a else live c q)
  unfolding live
  live-alloc [] a zero = refl
  live-alloc [] a (suc q) = ground arith
  live-alloc (o ∷ c) a zero = ground arith
  live-alloc (o ∷ c) a (suc q) = ground (arith, live-alloc c a q)

  pub live-length : (c : List (Option A)) → live c (length c) ≡ none
  unfolding live
  live-length [] = refl
  live-length (o ∷ c) = live-length c

  module _ (weight : A → ℕ) where
    abbrev pub weigh : Option A → ℕ
    weigh none = 0
    weigh (some a) = weight a

    -- The sum over all live objects.
    pub total : List (Option A) → ℕ
    total [] = 0
    total (o ∷ c) = weigh o + total c

    pub total-none : (c : List (Option A)) → ((p : ℕ) → live c p ≡ none) → total c ≡ 0
    unfolding live total
    total-none [] dead = refl
    total-none (none ∷ c) dead = omega (arith, total-none c (λ p. dead (suc p)))
    total-none (some a ∷ c) dead = absurd (ground (arith, dead zero))

    pub total-set :
        (c : List (Option A)) (p : ℕ) (o : Option A) {a : A}
        → live c p ≡ some a
        → total (set c p o) + weight a ≡ total c + weigh o
    unfolding live total
    total-set [] p o e = cc
    total-set (x ∷ c) zero o e = ground arith
    total-set (x ∷ c) (suc p) o e = omega (arith, total-set c p o e)

    pub total-alloc : (c : List (Option A)) (a : A) → total (alloc c a) ≡ total c + weight a
    unfolding total
    total-alloc [] a = omega arith
    total-alloc (o ∷ c) a = omega (arith, total-alloc c a)
