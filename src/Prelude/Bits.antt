-- ===== src/Prelude/Bits.antt =====
-- `|`, `&` and `^` at variables, as arithmetic, at every width.
use Prim.Native.Nat.{
  ℕ, zero, suc, ◌+◌, ◌-◌, ◌*◌, ◌/◌, ◌%◌, ◌^◌, ◌≤◌, ◌<◌, max, digits, bit_or, bit_or-bitwise,
}
use mathlib.Core.Path.{◌≡◌, refl, ap, ◌∙◌}
use mathlib.Core.Bool.{Bool, true, ◌&&◌}
use mathlib.Core.WellFounded
use native.Mathlib.Nat.{pow-suc}
use native.Mathlib.Omega.{arith}
use linux_track.Prelude.Order.{lt_wf}

-- A test of every number below a bound, by evaluation.
unfoldable pub holds_below : (ℕ → Bool) → ℕ → Bool
holds_below test zero = true
holds_below test (suc bound) = holds_below test bound && test bound

pub holds_at :
    (test : ℕ → Bool) (bound n : ℕ) → n < bound → holds_below test bound ≡ true → test n ≡ true
unfolding holds_below
holds_at test zero n small table = elim small [ ]
holds_at test (suc bound) n small table = ground (arith, holds_at test bound n)

-- `bit_or` goes through the binary digits of its first argument, in at most as many rounds as that
-- argument counts.
abbrev or_rounds : ℕ → ℕ → ℕ → ℕ
or_rounds = digits (λ rest. rest) max

or_rounds-suc : (rounds x y : ℕ) → x ≤ rounds → or_rounds (suc rounds) x y ≡ or_rounds rounds x y
or_rounds-suc zero zero y small = refl
or_rounds-suc zero (suc x) y small = absurd (omega arith)
or_rounds-suc (suc rounds) zero y small = refl
or_rounds-suc (suc rounds) (suc x) y small =
    let halves = or_rounds-suc rounds (suc x / 2) (y / 2) (omega arith) in rw halves refl

or_rounds_spare :
    (spare rounds x y : ℕ) → rounds ≡ spare + x → or_rounds rounds x y ≡ or_rounds x x y
or_rounds_spare zero rounds x y e = let same : rounds ≡ x = omega arith in rw same refl
or_rounds_spare (suc spare) zero x y e = absurd (omega arith)
or_rounds_spare (suc spare) (suc rounds) x y e =
    or_rounds-suc rounds x y (omega arith) ∙ or_rounds_spare spare rounds x y (omega arith)

bit_or_digit : (x y : ℕ) → bit_or x y ≡ bit_or (x / 2) (y / 2) * 2 + max (x % 2) (y % 2)
bit_or_digit zero y = omega (arith, bit_or-bitwise 0 y, bit_or-bitwise 0 (y / 2))
bit_or_digit (suc x) y =
    let half = suc x / 2 in
    omega (
      arith,
      bit_or-bitwise (suc x) y,
      bit_or-bitwise half (y / 2),
      or_rounds_spare (x - half) x half (y / 2) (omega arith),
    )

bit_or-zero : (a : ℕ) → bit_or a 0 ≡ a
bit_or-zero a = WellFounded.induction lt_wf {C = λ n. bit_or n 0 ≡ n} a below
  where
    below : (n : ℕ) → ((m : ℕ) → m < n → bit_or m 0 ≡ m) → bit_or n 0 ≡ n
    below n ih = ground (arith, bit_or_digit n 0, ih (n / 2))

mul-pow_suc : (q k : ℕ) → q * 2 ^ suc k ≡ 2 * (q * 2 ^ k)
mul-pow_suc q k = omega (arith, ap (λ (t : ℕ). q * t) (pow-suc 2 k))

-- `(q << k) | r` is a sum where `r` fits `k` bits.
pub bit_or-shift : (k q r : ℕ) → r < 2 ^ k → bit_or (q * 2 ^ k) r ≡ q * 2 ^ k + r
bit_or-shift zero q r fits = ground (arith, bit_or-zero q)
bit_or-shift (suc k) q r fits =
    ground (
      arith,
      bit_or_digit (q * 2 ^ suc k) r,
      mul-pow_suc q k,
      bit_or-shift k q (r / 2) (omega arith),
    )

-- `r | (1 << k)`, with the set bit last, as `|=` writes it.
pub bit_or-high : (k q r : ℕ) → r < 2 ^ k → bit_or r (q * 2 ^ k) ≡ r + q * 2 ^ k
bit_or-high zero q r fits = zero-bit_or q (omega arith)
  where
    zero-bit_or : (q : ℕ) → r ≡ 0 → bit_or r (q * 2 ^ 0) ≡ r + q * 2 ^ 0
    zero-bit_or q e = rw e (omega (arith, bit_or_digit 0 (q * 2 ^ 0), bit_or-bitwise 0 (q * 1)))
bit_or-high (suc k) q r fits =
    ground (
      arith,
      bit_or_digit r (q * 2 ^ suc k),
      mul-pow_suc q k,
      bit_or-high k q (r / 2) (omega arith),
    )
