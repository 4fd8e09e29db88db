-- ===== src/Axes/Curve.antt =====
-- src/spline.c, and the functions of src/axis.c that put a value on an axis.
pub mod Current
use linux_track.Prelude.{Bool, true, false, if◌then◌else◌}
use linux_track.Prelude.Exec.{Exec, ok, ◌>>=◌}
use linux_track.Axes.{
  AxisId, tz, AxisOps, SplinesDef, SplinePts, Splines, AxisDef, Axes, get_axis, put_axis,
}

module _ (o : AxisOps) where
  open o use {F, zero', one, two, ten, epsilon, thousandth, add, sub, mul, div, neg, sqrt, abs, lt}

  abbrev side_pts : F → F → SplinePts F
  side_pts dead_zone curvature = record {
    x0 = dead_zone;
    y0 = zero';
    x1 = add dead_zone (mul (sub one dead_zone) (sub one curvature));
    y1 = curvature;
    x2 = one;
    y2 = one;
  }

  unfoldable pub curve2pts : SplinesDef F → Splines F
  curve2pts curve = record {
    left = side_pts curve.dead_zone curve.l_curvature;
    right = side_pts curve.dead_zone curve.r_curvature;
  }

  -- From the choice of a side on.
  abbrev on_side : SplinePts F → F → F → F
  on_side pts factor x =
      let a = pts.x0 in
      let b = pts.x1 in
      let c = pts.x2 in
      let tmp = add (sub c (mul two b)) a in
      let t = div (add (sub (sqrt (add (sub (mul tmp x) (mul a c)) (mul b b))) b) a) tmp in
      let b02 = mul (sub one t) (sub one t) in
      let b12 = mul (mul two t) (sub one t) in
      let b22 = mul t t in
      if lt x a
      then zero'
      else if lt (abs tmp) thousandth
      then mul (mul factor (sub x a)) (div (sub pts.y2 pts.y0) (sub c a))
      else mul factor (add (add (mul b02 pts.y0) (mul b12 pts.y1)) (mul b22 pts.y2))

  unfoldable pub spline_point : Splines F → F → F
  spline_point splns x =
      if lt x zero'
      then on_side splns.left (neg one) (mul x (neg one))
      else on_side splns.right one x

  -- `x < -1.0` and `x > 1.0`
  abbrev pub limited : F → F
  limited x = let x' = if lt x (neg one) then neg one else x in if lt one x' then one else x'

  -- The value on a curve, for an axis that is enabled.
  abbrev pub on_curve : Splines F → AxisDef F → F → F
  on_curve curves axis x =
      let x' = if axis.inverted then neg x else x in
      let lim = if lt x' zero' then axis.l_limit else axis.r_limit in
      if lt lim epsilon
      then zero'
      else mul (spline_point curves (limited (div (mul x' axis.factor) lim))) lim

  abbrev pub with_curves : AxisDef F → AxisDef F
  with_curves axis = if axis.valid then axis else record axis { curves = curve2pts axis.curve_defs }

  unfoldable pub val_on_axis : AxisId → F → Axes o → Exec (F × Axes o)
  unfolding curve2pts spline_point
  val_on_axis id x a = do
    axis ← get_axis a id
    let axis' = with_curves axis
    if axis.enabled then ok (on_curve axis'.curves axis' x, put_axis id axis' a) else ok (zero', a)

  abbrev trans_koef : AxisId → F
  trans_koef tz = ten
  trans_koef _ = one

  -- `nonlinfilt` is `ltr_int_nonlinfilt` of src/math_utils.c. The result is returned and written to
  -- `*y_minus_1`, which is kept for an axis that is not enabled.
  unfoldable pub filter_axis : (F → F → F → F) → AxisId → F → F → Axes o → Exec (F × F)
  filter_axis nonlinfilt id x y_minus_1 a = do
    axis ← get_axis a id
    let greater = if lt axis.r_limit axis.l_limit then axis.l_limit else axis.r_limit
    let y = nonlinfilt x y_minus_1 (mul (mul (trans_koef id) axis.filter_factor) greater)
    if axis.enabled then ok (y, y) else ok (zero', y_minus_1)

  unfoldable pub is_symetrical : AxisId → Axes o → Exec Bool
  is_symetrical id a = do
    axis ← get_axis a id
    ok (
        if lt (abs (sub axis.curve_defs.l_curvature axis.curve_defs.r_curvature)) epsilon
        then lt (abs (sub axis.l_limit axis.r_limit)) epsilon
        else false)
