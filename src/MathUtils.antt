-- ===== src/MathUtils.antt =====
-- src/math_utils.c: vectors, rotations and the filter of the axes, over floating-point numbers of which
-- nothing is assumed. `float` and `double` are one type.
use linux_track.Prelude.{Bool, true, ◌&&◌, if◌then◌else◌, ◌≡◌, arith}
use linux_track.Axes.{AxisOps}

-- What the code calls beyond the operations of the axes: the functions of the C library, and the
-- constants 180, pi and 1e-5.
pub record MathOps : Type 1 where
  pub axis : AxisOps
  pub sin : axis.F → axis.F
  pub cos : axis.F → axis.F
  pub asin : axis.F → axis.F
  pub atan2 : axis.F → axis.F → axis.F
  pub finite : axis.F → Bool
  pub one_eighty : axis.F
  pub pi : axis.F
  pub tiny : axis.F

pub record Vec (F : Type 0) : Type 0 where
  pub v0 : F
  pub v1 : F
  pub v2 : F

-- The rows.
pub record Matrix (F : Type 0) : Type 0 where
  pub r0 : Vec F
  pub r1 : Vec F
  pub r2 : Vec F

abbrev pub vec : {F : Type 0} → F → F → F → Vec F
vec a b c = record { v0 = a; v1 = b; v2 = c }

module _ (o : MathOps) where
  open o use {axis, sin, cos, asin, atan2, finite, one_eighty, tiny}
  open axis use {F, zero', one, add, sub, mul, div, neg, sqrt, abs, lt}

  abbrev pub is_finite : F → Bool
  is_finite f = finite f

  abbrev pub is_vector_finite : Vec F → Bool
  is_vector_finite a = is_finite a.v0 && is_finite a.v1 && is_finite a.v2

  abbrev pub is_matrix_finite : Matrix F → Bool
  is_matrix_finite m = is_vector_finite m.r0 && is_vector_finite m.r1 && is_vector_finite m.r2

  -- `pt1 - pt2`
  unfoldable pub make_vec : Vec F → Vec F → Vec F
  make_vec a b = vec (sub a.v0 b.v0) (sub a.v1 b.v1) (sub a.v2 b.v2)

  unfoldable pub add_vecs : Vec F → Vec F → Vec F
  add_vecs a b = vec (add a.v0 b.v0) (add a.v1 b.v1) (add a.v2 b.v2)

  unfoldable pub vec_size : Vec F → F
  vec_size a = sqrt (add (add (mul a.v0 a.v0) (mul a.v1 a.v1)) (mul a.v2 a.v2))

  unfoldable pub dot_product : Vec F → Vec F → F
  dot_product a b = add (add (mul a.v0 b.v0) (mul a.v1 b.v1)) (mul a.v2 b.v2)

  unfoldable pub cross_product : Vec F → Vec F → Vec F
  cross_product a b =
      vec (sub (mul a.v1 b.v2) (mul a.v2 b.v1)) (sub (mul a.v2 b.v0) (mul a.v0 b.v2))
        (sub (mul a.v0 b.v1) (mul a.v1 b.v0))

  unfoldable pub mul_vec : Vec F → F → Vec F
  mul_vec a c = vec (mul a.v0 c) (mul a.v1 c) (mul a.v2 c)

  unfoldable pub normalize_vec : Vec F → Vec F
  normalize_vec a = let n = vec_size a in vec (div a.v0 n) (div a.v1 n) (div a.v2 n)

  unfoldable pub make_base : Vec F → Vec F → Matrix F
  make_base vec1 vec2 =
      let res0 = mul_vec vec1 (div one (vec_size vec1)) in
      let tmp1 = mul_vec res0 (dot_product vec2 res0) in
      let tmp2 = make_vec vec2 tmp1 in
      let res1 = mul_vec tmp2 (div one (vec_size tmp2)) in
      record { r0 = res0; r1 = res1; r2 = cross_product res0 res1 }

  unfoldable pub matrix_times_vec : Matrix F → Vec F → Vec F
  matrix_times_vec m a = vec (dot_product m.r0 a) (dot_product m.r1 a) (dot_product m.r2 a)

  unfoldable pub transpose : Matrix F → Matrix F
  transpose m = record {
    r0 = vec m.r0.v0 m.r1.v0 m.r2.v0;
    r1 = vec m.r0.v1 m.r1.v1 m.r2.v1;
    r2 = vec m.r0.v2 m.r1.v2 m.r2.v2;
  }

  -- `ltr_int_transpose_in_place`: three swaps.
  unfoldable pub transpose_in_place : Matrix F → Matrix F
  transpose_in_place m =
      let m₁ = record m { r0 = record m.r0 { v1 = m.r1.v0 }; r1 = record m.r1 { v0 = m.r0.v1 } } in
      let m₂ = record m₁ {
        r0 = record m₁.r0 { v2 = m₁.r2.v0 };
        r2 = record m₁.r2 { v0 = m₁.r0.v2 };
      } in
      record m₂ { r1 = record m₂.r1 { v2 = m₂.r2.v1 }; r2 = record m₂.r2 { v1 = m₂.r1.v2 } }

  -- A row of the product, `m1[i][0]*m2[0][j] + m1[i][1]*m2[1][j] + m1[i][2]*m2[2][j]`.
  abbrev row_times : Vec F → Matrix F → Vec F
  row_times a m =
      vec (add (add (mul a.v0 m.r0.v0) (mul a.v1 m.r1.v0)) (mul a.v2 m.r2.v0))
        (add (add (mul a.v0 m.r0.v1) (mul a.v1 m.r1.v1)) (mul a.v2 m.r2.v1))
        (add (add (mul a.v0 m.r0.v2) (mul a.v1 m.r1.v2)) (mul a.v2 m.r2.v2))

  unfoldable pub mul_matrix : Matrix F → Matrix F → Matrix F
  mul_matrix m1 m2 = record {
    r0 = row_times m1.r0 m2;
    r1 = row_times m1.r1 m2;
    r2 = row_times m1.r2 m2;
  }

  unfoldable pub invert_matrix : Matrix F → Matrix F
  invert_matrix m =
      let a = m.r0 in
      let b = m.r1 in
      let c = m.r2 in
      let det =
        sub
          (add
            (sub
              (add (sub (mul (mul a.v0 b.v1) c.v2) (mul (mul c.v0 b.v1) a.v2))
                (mul (mul b.v0 c.v1) a.v2))
              (mul (mul b.v0 a.v1) c.v2))
            (mul (mul c.v0 a.v1) b.v2))
          (mul (mul a.v0 c.v1) b.v2) in
      let k = div one det in
      transpose_in_place (record {
        r0 = mul_vec (cross_product b c) k;
        r1 = mul_vec (cross_product c a) k;
        r2 = mul_vec (cross_product a b) k;
      })

  unfoldable pub euler_to_matrix : F → F → F → Matrix F
  euler_to_matrix pitch yaw roll =
      let cp = cos pitch in
      let sp = sin pitch in
      let cy = cos yaw in
      let sy = sin yaw in
      let cr = cos roll in
      let sr = sin roll in
      record {
        r0 = vec (mul cr cy) (mul (neg sr) cy) sy;
        r1 =
            vec (add (mul (mul cr sy) sp) (mul sr cp)) (add (mul (mul (neg sr) sy) sp) (mul cr cp))
              (mul (neg cy) sp);
        r2 =
            vec (add (mul (mul (neg cr) sy) cp) (mul sr sp)) (add (mul (mul sr sy) cp) (mul cr sp))
              (mul cy cp);
      }

  -- `ltr_int_matrix_to_euler`: pitch, yaw and roll.
  unfoldable pub matrix_to_euler : Matrix F → Vec F
  matrix_to_euler m =
      let tmp = m.r0.v2 in
      let tmp₁ = if lt tmp (neg one) then neg one else tmp in
      let tmp₂ = if lt one tmp₁ then one else tmp₁ in
      let yaw = asin tmp₂ in
      let yc = cos yaw in
      if lt tiny (abs yc)
      then vec (atan2 (div (neg m.r1.v2) yc) (div m.r2.v2 yc)) yaw
          (atan2 (div (neg m.r0.v1) yc) (div m.r0.v0 yc))
      else vec zero' yaw (atan2 m.r1.v0 m.r1.v1)

  unfoldable pub clamp_angle : F → F
  clamp_angle angle =
      if lt angle (neg one_eighty)
      then neg one_eighty
      else if lt one_eighty angle
      then one_eighty
      else angle

  unfoldable pub nonlinfilt : F → F → F → F
  nonlinfilt x y_minus_1 filterfactor =
      let delta = sub x y_minus_1 in
      let y = add y_minus_1 (mul delta (div (abs delta) (add (abs delta) filterfactor))) in
      if is_finite x
      then (if is_finite y then y else if is_finite y_minus_1 then y_minus_1 else zero')
      else y_minus_1

  -- The filter never leaves the finite numbers, whatever it is given.
  pub nonlinfilt-finite :
      (x y_minus_1 ff : F)
      → is_finite y_minus_1 ≡ true
      → is_finite (nonlinfilt x y_minus_1 ff) ≡ true
  unfolding nonlinfilt
  nonlinfilt-finite x y ff h = ground (arith, h)
