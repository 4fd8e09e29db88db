-- ===== src/Tests/AxesTests.antt =====
-- Tests and examples for src/axis.c.
use linux_track.Prelude.{
  sym, ap, ◌∙◌, ℕ, ◌+◌, ◌-◌, ◌*◌, ◌/◌, ◌≡◌, refl, Bool, true, false, Option, some, none,
  if◌then◌else◌, ltb, ◌==◌, ◌&&◌, arith, inl, inr, Bool-cases,
}
use linux_track.Prelude.Exec.{ok, Returns}
use linux_track.Axes.{
  AxisId, pitch, roll, yaw, tx, ty, tz, misc, axis_deadzone, axis_filter, Field, deadzone, inverted,
  lcurv, rcurv, mult, lmult, rmult, limits, llimit, rlimit, filter, enabled, Key, field_key,
  filter_factor_key, AxisOps, Splines, Axes, set_axis_param, get_axis_param, axes_changed,
}
use linux_track.Axes.Settings.{Outcome, set_axis_param-Outcome}
use linux_track.Axes.Open.{init_axes}
use linux_track.Axes.Open.Saved.{PrefLaws}
use linux_track.Axes.Open.Reopened.{set_axis_param-init_axes}
use linux_track.Axes.Curve.{curve2pts, on_curve, val_on_axis}
use linux_track.Axes.Curve.Current.{no_call, one_more, polls, val_on_axis-Current}

abbrev axis_number : AxisId → ℕ
axis_number pitch = 0
axis_number roll = 1
axis_number yaw = 2
axis_number tx = 3
axis_number ty = 4
axis_number tz = 5
axis_number misc = 6

abbrev axis_at : ℕ → AxisId
axis_at n =
    if n == 0
    then pitch
    else if n == 1
    then roll
    else if n == 2
    then yaw
    else if n == 3
    then tx
    else if n == 4
    then ty
    else if n == 5
    then tz
    else misc

abbrev field_number : Field → ℕ
field_number deadzone = 0
field_number inverted = 1
field_number lcurv = 2
field_number rcurv = 3
field_number mult = 4
field_number lmult = 5
field_number rmult = 6
field_number limits = 7
field_number llimit = 8
field_number rlimit = 9
field_number filter = 10
field_number enabled = 11

abbrev field_at : ℕ → Field
field_at n =
    if n == 0
    then deadzone
    else if n == 1
    then inverted
    else if n == 2
    then lcurv
    else if n == 3
    then rcurv
    else if n == 4
    then mult
    else if n == 5
    then lmult
    else if n == 6
    then rmult
    else if n == 7
    then limits
    else if n == 8
    then llimit
    else if n == 9
    then rlimit
    else if n == 10
    then filter
    else enabled

axis_at-axis_number : (a : AxisId) → axis_at (axis_number a) ≡ a
axis_at-axis_number pitch = refl
axis_at-axis_number _ = refl

field_at-field_number : (f : Field) → field_at (field_number f) ≡ f
field_at-field_number deadzone = refl
field_at-field_number _ = refl

abbrev same_key : Key → Key → Bool
same_key (field_key a f) (field_key b g) =
    axis_number a == axis_number b && field_number f == field_number g
same_key filter_factor_key filter_factor_key = true
same_key _ _ = false

same_key_refl : (k : Key) → same_key k k ≡ true
same_key_refl (field_key a f) = ground arith
same_key_refl filter_factor_key = refl

same_key_sound : (k k' : Key) → same_key k k' ≡ true → k ≡ k'
same_key_sound (field_key a f) (field_key b g) e =
    let on_axis : axis_number a ≡ axis_number b = ground (arith, e) in
    let on_field : field_number f ≡ field_number g = ground (arith, e) in
    let axes : a ≡ b = sym (axis_at-axis_number a) ∙ ap axis_at on_axis ∙ axis_at-axis_number b in
    let fields : f ≡ g =
      sym (field_at-field_number f) ∙ ap field_at on_field ∙ field_at-field_number g in
    rw (axes, fields) refl
same_key_sound filter_factor_key filter_factor_key e = refl
same_key_sound (field_key a f) filter_factor_key e = absurd (ground arith)
same_key_sound filter_factor_key (field_key a f) e = absurd (ground arith)

-- Whole numbers for floats and for their texts; the preferences are a function.
abbrev pub whole : AxisOps
whole = record {
  F = ℕ;
  zero' = 0;
  one = 1;
  two = 2;
  four = 4;
  ten = 10;
  fifty = 50;
  ninety = 90;
  three_hundred = 300;
  half = 0;
  fifth = 0;
  epsilon = 0;
  add = λ a b. a + b;
  sub = λ a b. a - b;
  mul = λ a b. a * b;
  div = λ a b. a / b;
  neg = λ a. a;
  sqrt = λ a. a;
  abs = λ a. a;
  thousandth = 0;
  lt = ltb;
  V = ℕ;
  show = λ a. a;
  read = λ a. a;
  yes = 1;
  no = 0;
  is_yes = λ v. v == 1;
  is_no = λ v. v == 0;
  P = ℕ → Key → Option ℕ;
  get_key = λ p s k. p s k;
  change_key = λ p s k v. λ s' k'. if s == s' && same_key k k' then some v else p s' k';
}

whole-PrefLaws : PrefLaws whole
whole-PrefLaws = record {
  changed = λ p s k v. ground (arith, same_key_refl k);
  kept = λ p s k k' v ne. elim (Bool-cases (same_key k k')) [
    | inl same ↦ absurd (ne (same_key_sound k k' same))
    | inr other ↦ ground (arith, other)
  ];
}

-- The section 3 without a key, and Default with a dead zone for one axis.
abbrev stored : ℕ → Key → Option ℕ
stored s k = if s == 0 && same_key k (field_key yaw deadzone) then some 7 else none

abbrev garbage : Splines ℕ
garbage = record {
  left = record { x0 = 9; y0 = 9; x1 = 9; y1 = 9; x2 = 9; y2 = 9 };
  right = record { x0 = 9; y0 = 9; x1 = 9; y1 = 9; x2 = 9; y2 = 9 };
}

abbrev pub opened : Axes whole
opened = init_axes whole garbage 3 stored

-- The dead zone comes from Default.
copied_default : get_axis_param whole yaw axis_deadzone opened ≡ ok 7
unfolding get_axis_param init_axes
copied_default = refl

set_axis_param-Outcome_example :
    Returns (Outcome whole yaw axis_filter 5 opened) (set_axis_param whole yaw axis_filter 5 opened)
set_axis_param-Outcome_example = set_axis_param-Outcome whole yaw axis_filter 5 opened (λ e. cc)

-- The filter of 5 becomes 2.
set_axis_param-init_axes_example :
    Returns
      (λ (r, a').
        get_axis_param whole yaw axis_filter (init_axes whole garbage a'.section a'.prefs) ≡ ok 2)
      (set_axis_param whole yaw axis_filter 5 opened)
set_axis_param-init_axes_example =
    set_axis_param-init_axes whole whole-PrefLaws yaw axis_filter filter 5 opened garbage (λ e. cc)
      refl (λ e. cc)

val_on_axis-Current_example :
    Returns
      (λ (v, c). v ≡ (
        if opened.yaw_axis.enabled
        then on_curve whole (curve2pts whole opened.yaw_axis.curve_defs) opened.yaw_axis 20
        else 0))
      (val_on_axis whole yaw 20 (axes_changed whole true opened).1)
unfolding axes_changed
val_on_axis-Current_example =
    val_on_axis-Current whole garbage 3 stored (axes_changed whole true opened).1 yaw
      opened.yaw_axis 20 (one_more opened (axes_changed whole true opened).1 no_call (polls true))
      refl
