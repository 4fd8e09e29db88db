-- ===== src/Tir/Decode/Tir5.antt =====
-- The eight packed bytes of a TrackIR 5 stripe: no field leaks into another.
use linux_track.Prelude.{
  ℕ, ◌+◌, ◌*◌, ◌/◌, ◌%◌, ◌^◌, ◌<◌, ◌≡◌, refl, ◌∙◌, bit_and, bit_or, arith, true, ◌==◌, ==_iff,
  holds_below, holds_at, bit_or-shift, u32, sub32,
}
use linux_track.Stripe.{Stripe}
use linux_track.Tir.Decode.{tir5_fields}

mask_table :
    (holds_below (λ x. bit_and x 0x1f == x % 32) 256 ≡ true)
    × (holds_below (λ x. bit_and x 0x3f == x % 64) 256 ≡ true)
    × (holds_below (λ x. bit_and x 0xe0 == x / 32 * 32) 256 ≡ true)
    × (holds_below (λ x. bit_and x 7 == x % 8) 256 ≡ true)
    × (holds_below (λ x. bit_and x 0x7f == x % 128) 256 ≡ true)
unfolding holds_below
mask_table = (refl, refl, refl, refl, refl)

masked :
    (m : ℕ) (f : ℕ → ℕ) (x : ℕ)
    → holds_below (λ x. bit_and x m == f x) 256 ≡ true
    → x < 256
    → bit_and x m ≡ f x
masked m f x table h = (==_iff _ _).0 (holds_at _ 256 x h table)

-- The stripe of five fields; `hstop` is computed from the others.
abbrev pub tir5_stripe : ℕ → ℕ → ℕ → ℕ → ℕ → Stripe
tir5_stripe vline hstart points sum_x sum = record {
  vline = vline;
  hstart = hstart;
  hstop = sub32 (u32 (points + hstart)) 1;
  sum_x = sum_x;
  sum = sum;
  points = points;
}

module _ (p0 p1 p2 p3 p4 p5 p6 p7 : ℕ) (h1 : p1 < 256) (h2 : p2 < 256) (h3 : p3 < 256)
    (h4 : p4 < 256) (h5 : p5 < 256) (h6 : p6 < 256) (h7 : p7 < 256) where
  hstart_lem : bit_or (p0 * 2 ^ 2) (p1 / 2 ^ 6) ≡ p0 * 4 + p1 / 64
  hstart_lem = bit_or-shift 2 p0 (p1 / 2 ^ 6) (omega arith)

  vline_lem : bit_or (bit_and p1 0x3f * 2 ^ 3) (bit_and p2 0xe0 / 2 ^ 5) ≡ p1 % 64 * 8 + p2 / 32
  vline_lem =
      let a = masked 0x3f (λ x. x % 64) p1 mask_table.1 h1 in
      let b = masked 0xe0 (λ x. x / 32 * 32) p2 mask_table.2 h2 in
      rw (a, b) (bit_or-shift 3 (p1 % 64) (p2 / 32 * 32 / 2 ^ 5) (omega arith) ∙ omega arith)

  points_lem : bit_or (bit_and p2 0x1f * 2 ^ 5) (p3 / 2 ^ 3) ≡ p2 % 32 * 32 + p3 / 8
  points_lem =
      let a = masked 0x1f (λ x. x % 32) p2 mask_table.0 h2 in
      rw a (bit_or-shift 5 (p2 % 32) (p3 / 2 ^ 3) (omega arith))

  sum_lem : bit_or (bit_and p6 0x7f * 2 ^ 8) p7 ≡ p6 % 128 * 256 + p7
  sum_lem =
      let a = masked 0x7f (λ x. x % 128) p6 mask_table.4 h6 in
      rw a (bit_or-shift 8 (p6 % 128) p7 (omega arith))

  sum_x_lem :
      bit_or (bit_or (bit_or (bit_and p3 7 * 2 ^ 17) (p4 * 2 ^ 9)) (p5 * 2 ^ 1)) (p6 / 2 ^ 7)
      ≡ p3 % 8 * 131072 + p4 * 512 + p5 * 2 + p6 / 128
  sum_x_lem =
      let a = masked 7 (λ x. x % 8) p3 mask_table.3 h3 in
      let top = bit_or-shift 17 (p3 % 8) (p4 * 2 ^ 9) (omega arith) in
      let q : p3 % 8 * 2 ^ 17 + p4 * 2 ^ 9 ≡ (p3 % 8 * 256 + p4) * 2 ^ 9 = omega arith in
      let mid = bit_or-shift 9 (p3 % 8 * 256 + p4) (p5 * 2 ^ 1) (omega arith) in
      let s : (p3 % 8 * 256 + p4) * 2 ^ 9 + p5 * 2 ^ 1 ≡ (p3 % 8 * 65536 + p4 * 256 + p5) * 2 ^ 1 =
        omega arith in
      let low = bit_or-shift 1 (p3 % 8 * 65536 + p4 * 256 + p5) (p6 / 2 ^ 7) (omega arith) in
      rw (a, top, q, mid, s, low) (omega arith)

  tir5_fields_lem :
      tir5_fields p0 p1 p2 p3 p4 p5 p6 p7
      ≡ tir5_stripe
          (p1 % 64 * 8 + p2 / 32)
          (p0 * 4 + p1 / 64)
          (p2 % 32 * 32 + p3 / 8)
          (p3 % 8 * 131072 + p4 * 512 + p5 * 2 + p6 / 128)
          (p6 % 128 * 256 + p7)
  unfolding tir5_fields
  tir5_fields_lem = rw (hstart_lem, vline_lem, points_lem, sum_x_lem, sum_lem) refl

-- A stripe whose fields fit the widths of the format (line 9 bits, start and points 10 bits,
-- weighted sum 20 bits, sum 15 bits), packed most significant bits first into eight bytes, is read
-- back by the TrackIR 5 decoder, field for field.
pub tir5_roundtrip :
    (vline hstart points sum_x sum : ℕ)
    → vline < 512
    → hstart < 1024
    → points < 1024
    → sum_x < 2 ^ 20
    → sum < 2 ^ 15
    → tir5_fields
        (hstart / 4)
        (hstart % 4 * 64 + vline / 8)
        (vline % 8 * 32 + points / 32)
        (points % 32 * 8 + sum_x / 131072)
        (sum_x / 512 % 256)
        (sum_x / 2 % 256)
        (sum_x % 2 * 128 + sum / 256)
        (sum % 256)
      ≡ tir5_stripe vline hstart points sum_x sum
tir5_roundtrip v a n x s hv ha hn hx hs =
    tir5_fields_lem (a / 4) (a % 4 * 64 + v / 8) (v % 8 * 32 + n / 32) (n % 32 * 8 + x / 131072)
      (x / 512 % 256) (x / 2 % 256) (x % 2 * 128 + s / 256) (s % 256) (omega arith) (omega arith)
      (omega arith) (omega arith) (omega arith) (omega arith) (omega arith)
    ∙ (λ i. tir5_stripe (v' i) (a' i) (n' i) (x' i) (s' i))
  where
    v' : (a % 4 * 64 + v / 8) % 64 * 8 + (v % 8 * 32 + n / 32) / 32 ≡ v
    v' = omega arith

    a' : a / 4 * 4 + (a % 4 * 64 + v / 8) / 64 ≡ a
    a' = omega arith

    n' : (v % 8 * 32 + n / 32) % 32 * 32 + (n % 32 * 8 + x / 131072) / 8 ≡ n
    n' = omega arith

    x' :
        (n % 32 * 8 + x / 131072) % 8 * 131072
          + x / 512 % 256 * 512
          + x / 2 % 256 * 2
          + (x % 2 * 128 + s / 256) / 128
        ≡ x
    x' = omega arith

    s' : (x % 2 * 128 + s / 256) % 128 * 256 + s % 256 ≡ s
    s' = omega arith
