-- ===== src/Tir/Decode.antt =====
-- src/tir_img.c: the bytes of one stripe, in the formats of the TrackIR 2, 4, 5 and SmartNav 4.
pub mod Fields
pub mod Weights
pub mod Tir5
use linux_track.Prelude.{
  ℕ, ◌+◌, ◌*◌, ◌/◌, bit_and, bit_or, List, ◌==◌, if◌then◌else◌, u32, sub32, ◌<<<◌, ◌>>>◌,
}
use linux_track.Prelude.Exec.{Exec, ok, ◌>>=◌, read_at}
use linux_track.Stripe.{Stripe}

-- `if(rest & mask) field |= value;`
abbrev pub or_if : ℕ → ℕ → ℕ → ℕ → ℕ
or_if rest mask value field = if bit_and rest mask == 0 then field else bit_or field value

-- The three fields that follow from the ends of a stripe of evenly lit pixels. The product wraps as
-- `unsigned int`; its half, taken in `double`, is exact and loses its fraction.
unfoldable pub binary_stripe : ℕ → ℕ → ℕ → Stripe
binary_stripe vline hstart hstop =
    let sum = u32 (sub32 hstop hstart + 1) in
    record {
      vline = vline;
      hstart = hstart;
      hstop = hstop;
      sum_x = u32 (sum * sub32 sum 1) / 2;
      sum = sum;
      points = sum;
    }

unfoldable pub process_stripe_tir2 : List ℕ → ℕ → Exec Stripe
unfolding binary_stripe
process_stripe_tir2 p i = do
  v ← read_at p i
  a ← read_at p (i + 1)
  b ← read_at p (i + 2)
  ok (binary_stripe v a b)

-- The bits of the fourth byte that extend the fields, in the order of the source.
unfoldable pub sn4_fields : ℕ → ℕ → ℕ → ℕ → Stripe
unfolding binary_stripe
sn4_fields v a b rest =
    let b1 = or_if rest 0x01 0x100 b in
    let a1 = or_if rest 0x02 0x100 a in
    let v1 = or_if rest 0x04 0x100 v in
    let b2 = or_if rest 0x08 0x200 b1 in
    let a2 = or_if rest 0x10 0x200 a1 in
    let v2 = or_if rest 0x20 0x200 v1 in
    let b3 = or_if rest 0x40 0x400 b2 in let a3 = or_if rest 0x80 0x400 a2 in binary_stripe v2 a3 b3

unfoldable pub process_stripe_sn4 : List ℕ → ℕ → Exec Stripe
unfolding sn4_fields
process_stripe_sn4 p i = do
  v ← read_at p i
  a ← read_at p (i + 1)
  b ← read_at p (i + 2)
  rest ← read_at p (i + 3)
  ok (sn4_fields v a b rest)

unfoldable pub tir4_fields : ℕ → ℕ → ℕ → ℕ → Stripe
unfolding binary_stripe
tir4_fields v a b rest =
    let v1 = or_if rest 0x20 0x100 v in
    let a1 = or_if rest 0x80 0x100 a in
    let b1 = or_if rest 0x40 0x100 b in
    let a2 = or_if rest 0x10 0x200 a1 in let b2 = or_if rest 0x08 0x200 b1 in binary_stripe v1 a2 b2

unfoldable pub process_stripe_tir4 : List ℕ → ℕ → Exec Stripe
unfolding tir4_fields
process_stripe_tir4 p i = do
  v ← read_at p i
  a ← read_at p (i + 1)
  b ← read_at p (i + 2)
  rest ← read_at p (i + 3)
  ok (tir4_fields v a b rest)

unfoldable pub tir5_fields : ℕ → ℕ → ℕ → ℕ → ℕ → ℕ → ℕ → ℕ → Stripe
tir5_fields p0 p1 p2 p3 p4 p5 p6 p7 =
    let hstart = bit_or (p0 <<< 2) (p1 >>> 6) in
    let points = bit_or (bit_and p2 0x1f <<< 5) (p3 >>> 3) in
    record {
      vline = bit_or (bit_and p1 0x3f <<< 3) (bit_and p2 0xe0 >>> 5);
      hstart = hstart;
      hstop = sub32 (u32 (points + hstart)) 1;
      sum_x = bit_or (bit_or (bit_or (bit_and p3 7 <<< 17) (p4 <<< 9)) (p5 <<< 1)) (p6 >>> 7);
      sum = bit_or (bit_and p6 0x7f <<< 8) p7;
      points = points;
    }

unfoldable pub process_stripe_tir5 : List ℕ → ℕ → Exec Stripe
unfolding tir5_fields
process_stripe_tir5 p i = do
  p0 ← read_at p i
  p1 ← read_at p (i + 1)
  p2 ← read_at p (i + 2)
  p3 ← read_at p (i + 3)
  p4 ← read_at p (i + 4)
  p5 ← read_at p (i + 5)
  p6 ← read_at p (i + 6)
  p7 ← read_at p (i + 7)
  ok (tir5_fields p0 p1 p2 p3 p4 p5 p6 p7)
