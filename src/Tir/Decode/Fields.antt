-- ===== src/Tir/Decode/Fields.antt =====
-- The extension bits of the TrackIR 4 and SmartNav 4 stripes: what the flags of the fourth byte add
-- to the fields, and that every stripe whose ends fit the format has a coding that is read back.
use linux_track.Prelude.{
  ℕ, zero, suc, ◌+◌, ◌*◌, ◌/◌, ◌%◌, ◌^◌, ◌<◌, ◌≡◌, refl, ◌∙◌, bit_and, arith, true, ◌==◌, ==_iff,
  holds_below, holds_at, bit_or-high,
}
use linux_track.Tir.Decode.{or_if, binary_stripe, sn4_fields, tir4_fields}

-- `rest & (1 << k)` of a byte is its digit `k`.
abbrev flag : ℕ → ℕ → ℕ
flag rest mask = rest / mask % 2

flag_table :
    (holds_below (λ r. bit_and r 0x01 == flag r 0x01 * 0x01) 256 ≡ true)
    × (holds_below (λ r. bit_and r 0x02 == flag r 0x02 * 0x02) 256 ≡ true)
    × (holds_below (λ r. bit_and r 0x04 == flag r 0x04 * 0x04) 256 ≡ true)
    × (holds_below (λ r. bit_and r 0x08 == flag r 0x08 * 0x08) 256 ≡ true)
    × (holds_below (λ r. bit_and r 0x10 == flag r 0x10 * 0x10) 256 ≡ true)
    × (holds_below (λ r. bit_and r 0x20 == flag r 0x20 * 0x20) 256 ≡ true)
    × (holds_below (λ r. bit_and r 0x40 == flag r 0x40 * 0x40) 256 ≡ true)
    × (holds_below (λ r. bit_and r 0x80 == flag r 0x80 * 0x80) 256 ≡ true)
unfolding holds_below
flag_table = (refl, refl, refl, refl, refl, refl, refl, refl)

module _ (mask : ℕ)
    (table : holds_below (λ r. bit_and r mask == flag r mask * mask) 256 ≡ true) where
  bit_and-flag : (r : ℕ) → r < 256 → bit_and r mask ≡ flag r mask * mask
  bit_and-flag r h = (==_iff _ _).0 (holds_at _ 256 r h table)

  or_if_digit :
      (k field r d : ℕ)
      → field < 2 ^ k
      → 0 < mask
      → d < 2
      → bit_and r mask ≡ d * mask
      → or_if r mask (1 * 2 ^ k) field ≡ field + d * 2 ^ k
  or_if_digit k field r zero small p h e = ground arith
  or_if_digit k field r (suc zero) small p h e = ground (arith, bit_or-high k 1 field small)
  or_if_digit k field r (suc (suc d)) small p h e = absurd (omega arith)

  or_if_lem :
      (k field r : ℕ)
      → field < 2 ^ k
      → r < 256
      → 0 < mask
      → or_if r mask (1 * 2 ^ k) field ≡ field + flag r mask * 2 ^ k
  or_if_lem k field r small byte p =
      or_if_digit k field r (flag r mask) small p (omega arith) (bit_and-flag r byte)

module _ (v a b rest : ℕ) (hv : v < 256) (ha : a < 256) (hb : b < 256) (hr : rest < 256) where
  tir4_fields_lem :
      tir4_fields v a b rest
      ≡ binary_stripe
          (v + flag rest 0x20 * 0x100)
          (a + flag rest 0x80 * 0x100 + flag rest 0x10 * 0x200)
          (b + flag rest 0x40 * 0x100 + flag rest 0x08 * 0x200)
  unfolding tir4_fields
  tir4_fields_lem =
      let v1 = or_if_lem 0x20 flag_table.5 8 v rest hv hr (omega arith) in
      let a1 = or_if_lem 0x80 flag_table.7 8 a rest ha hr (omega arith) in
      let b1 = or_if_lem 0x40 flag_table.6 8 b rest hb hr (omega arith) in
      let a2 =
        or_if_lem 0x10 flag_table.4 9 (a + flag rest 0x80 * 0x100) rest (omega arith) hr
          (omega arith) in
      let b2 =
        or_if_lem 0x08 flag_table.3 9 (b + flag rest 0x40 * 0x100) rest (omega arith) hr
          (omega arith) in
      rw (v1, a1, b1, a2, b2) refl

  sn4_fields_lem :
      sn4_fields v a b rest
      ≡ binary_stripe
          (v + flag rest 0x04 * 0x100 + flag rest 0x20 * 0x200)
          (a + flag rest 0x02 * 0x100 + flag rest 0x10 * 0x200 + flag rest 0x80 * 0x400)
          (b + flag rest 0x01 * 0x100 + flag rest 0x08 * 0x200 + flag rest 0x40 * 0x400)
  unfolding sn4_fields
  sn4_fields_lem =
      let b1 = or_if_lem 0x01 flag_table.0 8 b rest hb hr (omega arith) in
      let a1 = or_if_lem 0x02 flag_table.1 8 a rest ha hr (omega arith) in
      let v1 = or_if_lem 0x04 flag_table.2 8 v rest hv hr (omega arith) in
      let b2 =
        or_if_lem 0x08 flag_table.3 9 (b + flag rest 0x01 * 0x100) rest (omega arith) hr
          (omega arith) in
      let a2 =
        or_if_lem 0x10 flag_table.4 9 (a + flag rest 0x02 * 0x100) rest (omega arith) hr
          (omega arith) in
      let v2 =
        or_if_lem 0x20 flag_table.5 9 (v + flag rest 0x04 * 0x100) rest (omega arith) hr
          (omega arith) in
      let b3 =
        or_if_lem 0x40 flag_table.6 10 (b + flag rest 0x01 * 0x100 + flag rest 0x08 * 0x200) rest
          (omega arith) hr (omega arith) in
      let a3 =
        or_if_lem 0x80 flag_table.7 10 (a + flag rest 0x02 * 0x100 + flag rest 0x10 * 0x200) rest
          (omega arith) hr (omega arith) in
      rw (b1, a1, v1, b2, a2, v2, b3, a3) refl

-- The fourth byte that a TrackIR 4 sends for a stripe, one bit for each place past the eighth.
abbrev pub tir4_rest : ℕ → ℕ → ℕ → ℕ
tir4_rest v a b =
    b / 512 * 0x08 + a / 512 * 0x10 + v / 256 * 0x20 + b / 256 % 2 * 0x40 + a / 256 % 2 * 0x80

-- The fourth byte that a SmartNav 4 sends.
abbrev pub sn4_rest : ℕ → ℕ → ℕ → ℕ
sn4_rest v a b =
    b / 256 % 2
    + a / 256 % 2 * 0x02
    + v / 256 % 2 * 0x04
    + b / 512 % 2 * 0x08
    + a / 512 % 2 * 0x10
    + v / 512 * 0x20
    + b / 1024 * 0x40
    + a / 1024 * 0x80

-- A line below 512 and ends below 1024, sent as three low bytes and their extension bits, are read
-- back by the TrackIR 4 decoder.
tir4_roundtrip :
    (v a b : ℕ)
    → v < 512
    → a < 1024
    → b < 1024
    → tir4_fields (v % 256) (a % 256) (b % 256) (tir4_rest v a b) ≡ binary_stripe v a b
tir4_roundtrip v a b hv ha hb =
    let e =
      tir4_fields_lem (v % 256) (a % 256) (b % 256) (tir4_rest v a b) (omega arith) (omega arith)
        (omega arith) (omega arith) in
    e ∙ parts
  where
    v' : v % 256 + flag (tir4_rest v a b) 0x20 * 0x100 ≡ v
    v' = omega arith

    a' : a % 256 + flag (tir4_rest v a b) 0x80 * 0x100 + flag (tir4_rest v a b) 0x10 * 0x200 ≡ a
    a' = omega arith

    b' : b % 256 + flag (tir4_rest v a b) 0x40 * 0x100 + flag (tir4_rest v a b) 0x08 * 0x200 ≡ b
    b' = omega arith

    parts :
        binary_stripe
          (v % 256 + flag (tir4_rest v a b) 0x20 * 0x100)
          (a % 256 + flag (tir4_rest v a b) 0x80 * 0x100 + flag (tir4_rest v a b) 0x10 * 0x200)
          (b % 256 + flag (tir4_rest v a b) 0x40 * 0x100 + flag (tir4_rest v a b) 0x08 * 0x200)
        ≡ binary_stripe v a b
    parts i = binary_stripe (v' i) (a' i) (b' i)

-- A line below 1024 and ends below 2048 are read back by the SmartNav 4 decoder.
pub sn4_roundtrip :
    (v a b : ℕ)
    → v < 1024
    → a < 2048
    → b < 2048
    → sn4_fields (v % 256) (a % 256) (b % 256) (sn4_rest v a b) ≡ binary_stripe v a b
sn4_roundtrip v a b hv ha hb =
    let e =
      sn4_fields_lem (v % 256) (a % 256) (b % 256) (sn4_rest v a b) (omega arith) (omega arith)
        (omega arith) (omega arith) in
    e ∙ (λ i. binary_stripe (v' i) (a' i) (b' i))
  where
    r : ℕ
    r = sn4_rest v a b

    v' : v % 256 + flag r 0x04 * 0x100 + flag r 0x20 * 0x200 ≡ v
    v' = omega arith

    a' : a % 256 + flag r 0x02 * 0x100 + flag r 0x10 * 0x200 + flag r 0x80 * 0x400 ≡ a
    a' = omega arith

    b' : b % 256 + flag r 0x01 * 0x100 + flag r 0x08 * 0x200 + flag r 0x40 * 0x400 ≡ b
    b' = omega arith
