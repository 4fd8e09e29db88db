-- ===== src/Tir/Decode/Weights.antt =====
-- The centroid weights of an evenly lit stripe, against their definition as a sum.
use linux_track.Prelude.{
  ℕ, zero, suc, ◌+◌, ◌-◌, ◌*◌, ◌/◌, ◌^◌, ◌≤◌, ◌<◌, ◌≡◌, ap, ◌∙◌, arith, u32, sub32,
}
use linux_track.Tir.Decode.{binary_stripe}

-- 0 + 1 + … + (n - 1): the offsets from `hstart` of the pixels of a stripe of `n` points.
abbrev pub offsets : ℕ → ℕ
offsets zero = 0
offsets (suc n) = offsets n + n

offsets_closed : (n : ℕ) → 2 * offsets n + n ≡ n * n
offsets_closed zero = omega arith
offsets_closed (suc n) = omega (arith, offsets_closed n)

mul_mono : (n c : ℕ) → n ≤ c → n * n ≤ c * c
mul_mono n c h = grind arith

half_product : (n : ℕ) → n < 2 ^ 16 → u32 (u32 (n + 1) * n) / 2 ≡ offsets n + n
half_product n h =
    let small : u32 (n + 1) ≡ n + 1 = omega arith in
    rw small (omega (arith, offsets_closed n, mul_mono n (2 ^ 16 - 1) (omega arith)))

-- A stripe of evenly lit pixels from `hstart` to `hstop` has as many points as pixels, each of
-- weight 1, and `sum_x` is the sum of the pixels' offsets from `hstart`: for ends in order and
-- below 2 ^ 16 no operation wraps.
pub binary_stripe_weights :
    (v a b : ℕ)
    → a ≤ b
    → b < 2 ^ 16
    → ((binary_stripe v a b).points ≡ b - a + 1)
      × ((binary_stripe v a b).sum ≡ b - a + 1)
      × ((binary_stripe v a b).sum_x ≡ offsets (b - a + 1))
unfolding binary_stripe
binary_stripe_weights v a b h k =
    let count : u32 (sub32 b a + 1) ≡ u32 (b - a + 1) = omega arith in
    let last : sub32 (u32 (b - a + 1)) 1 ≡ b - a = omega arith in
    (omega arith, omega arith, rw (count, last) (half_product (b - a) (omega arith) ∙ next))
  where
    next : offsets (b - a) + (b - a) ≡ offsets (b - a + 1)
    next = let e : suc (b - a) ≡ b - a + 1 = omega arith in ap offsets e
