-- ===== src/Axes.antt =====
-- src/axis.c: the settings of the six axes, in memory and in the preferences. The mutex, the log and the
-- assertions are left out; the number of an axis that is none is a failed assertion.
pub mod Open
pub mod Curve
pub mod Settings
use linux_track.Prelude.{ℕ, Bool, true, false, Option, none, some, if◌then◌else◌}
use linux_track.Prelude.Exec.{Exec, ok, fault, ◌>>=◌}

-- `enum axis_t`
pub data AxisId : Type 0 where
  pitch roll yaw tx ty tz misc : AxisId

-- `enum axis_param_t`
pub data AxisParam : Type 0 where
  axis_enabled axis_deadzone axis_lcurv axis_rcurv axis_mult axis_llimit axis_rlimit axis_filter
        axis_inverted axis_full misc_legr misc_alter misc_align misc_focal_length axis_default :
      AxisParam

-- `axis_fields`
pub data Field : Type 0 where
  deadzone inverted lcurv rcurv mult lmult rmult limits llimit rlimit filter enabled : Field

-- The keys of a section: those of a field, with the axis for its prefix, and `Filter-factor`.
pub data Key : Type 0 where
  field_key : AxisId → Field → Key
  filter_factor_key : Key

-- What the code uses of floating-point numbers, of texts and of the preferences (src/pref.cpp): `show` and
-- `read` are the conversions of a number to the text of a key and back, `is_yes` and `is_no` the comparisons that
-- ignore case, and section 0 is the one called Default.
pub record AxisOps : Type 1 where
  pub F : Type 0
  pub zero' : F
  pub one : F
  pub two : F
  pub four : F
  pub ten : F
  pub fifty : F
  pub ninety : F
  pub three_hundred : F
  pub half : F
  pub fifth : F
  pub epsilon : F
  pub add : F → F → F
  pub sub : F → F → F
  pub mul : F → F → F
  pub div : F → F → F
  pub neg : F → F
  pub sqrt : F → F
  pub abs : F → F
  pub thousandth : F
  pub lt : F → F → Bool
  pub V : Type 0
  pub show : F → V
  pub read : V → F
  pub yes : V
  pub no : V
  pub is_yes : V → Bool
  pub is_no : V → Bool
  pub P : Type 0
  pub get_key : P → ℕ → Key → Option V
  pub change_key : P → ℕ → Key → V → P

-- `splines_def`
pub record SplinesDef (F : Type 0) : Type 0 where
  pub dead_zone : F
  pub l_curvature : F
  pub r_curvature : F

-- `spline_pts` and `splines`
pub record SplinePts (F : Type 0) : Type 0 where
  pub x0 : F
  pub y0 : F
  pub x1 : F
  pub y1 : F
  pub x2 : F
  pub y2 : F

pub record Splines (F : Type 0) : Type 0 where
  pub left : SplinePts F
  pub right : SplinePts F

-- `struct axis_def`; its prefix is given by the axis.
pub record AxisDef (F : Type 0) : Type 0 where
  pub enabled : Bool
  pub inverted : Bool
  pub curve_defs : SplinesDef F
  pub curves : Splines F
  pub valid : Bool
  pub factor : F
  pub l_limit : F
  pub r_limit : F
  pub filter_factor : F

-- `struct ltr_axes` with its section, and the preferences, which are global.
pub record Axes (o : AxisOps) : Type 0 where
  pub pitch_axis : AxisDef o.F
  pub yaw_axis : AxisDef o.F
  pub roll_axis : AxisDef o.F
  pub tx_axis : AxisDef o.F
  pub ty_axis : AxisDef o.F
  pub tz_axis : AxisDef o.F
  pub axes_changed_flag : Bool
  pub section : ℕ
  pub prefs : o.P

module _ {o : AxisOps} where
  abbrev pub get_axis : Axes o → AxisId → Exec (AxisDef o.F)
  get_axis a pitch = ok a.pitch_axis
  get_axis a roll = ok a.roll_axis
  get_axis a yaw = ok a.yaw_axis
  get_axis a tx = ok a.tx_axis
  get_axis a ty = ok a.ty_axis
  get_axis a tz = ok a.tz_axis
  get_axis a misc = fault

  -- A write through the pointer that `get_axis` returned.
  abbrev pub put_axis : AxisId → AxisDef o.F → Axes o → Axes o
  put_axis pitch d a = record a { pitch_axis = d }
  put_axis roll d a = record a { roll_axis = d }
  put_axis yaw d a = record a { yaw_axis = d }
  put_axis tx d a = record a { tx_axis = d }
  put_axis ty d a = record a { ty_axis = d }
  put_axis tz d a = record a { tz_axis = d }
  put_axis misc d a = a

-- The switches over the parameter: the field that a parameter is saved as, `none` where the default
-- is taken.
abbrev pub param_field : AxisParam → Option Field
param_field axis_deadzone = some deadzone
param_field axis_lcurv = some lcurv
param_field axis_rcurv = some rcurv
param_field axis_mult = some mult
param_field axis_llimit = some llimit
param_field axis_rlimit = some rlimit
param_field axis_filter = some filter
param_field _ = none

abbrev pub bool_field : AxisParam → Option Field
bool_field axis_enabled = some enabled
bool_field axis_inverted = some inverted
bool_field _ = none

module _ {F : Type 0} where
  abbrev pub put_flt : Field → F → AxisDef F → AxisDef F
  put_flt deadzone v d = record d { curve_defs = record d.curve_defs { dead_zone = v } }
  put_flt lcurv v d = record d { curve_defs = record d.curve_defs { l_curvature = v } }
  put_flt rcurv v d = record d { curve_defs = record d.curve_defs { r_curvature = v } }
  put_flt mult v d = record d { factor = v }
  put_flt llimit v d = record d { l_limit = v }
  put_flt rlimit v d = record d { r_limit = v }
  put_flt filter v d = record d { filter_factor = v }
  put_flt _ v d = d

  abbrev pub flt_of : F → Option Field → AxisDef F → F
  flt_of zero (some deadzone) d = d.curve_defs.dead_zone
  flt_of zero (some lcurv) d = d.curve_defs.l_curvature
  flt_of zero (some rcurv) d = d.curve_defs.r_curvature
  flt_of zero (some mult) d = d.factor
  flt_of zero (some llimit) d = d.l_limit
  flt_of zero (some rlimit) d = d.r_limit
  flt_of zero (some filter) d = d.filter_factor
  flt_of zero _ d = zero

  abbrev pub put_bool : Field → Bool → AxisDef F → AxisDef F
  put_bool enabled v d = record d { enabled = v }
  put_bool inverted v d = record d { inverted = v }
  put_bool _ v d = d

  abbrev pub bool_of : Option Field → AxisDef F → Bool
  bool_of (some enabled) d = d.enabled
  bool_of (some inverted) d = d.inverted
  bool_of _ d = false

module _ (o : AxisOps) where
  open o use {F, zero', show, yes, no, change_key}

  abbrev pub save : AxisId → Field → o.V → Axes o → Axes o
  save id f v a = record a {
    prefs = change_key a.prefs a.section (field_key id f) v;
    axes_changed_flag = true;
  }

  abbrev pub set_field : AxisId → Option Field → F → AxisDef F → Axes o → Bool × Axes o
  set_field id none val d a = (false, put_axis id d a)
  set_field id (some f) val d a = (true, save id f (show val) (put_axis id (put_flt f val d) a))

  unfoldable pub set_axis_param : AxisId → AxisParam → F → Axes o → Exec (Bool × Axes o)
  set_axis_param id param val a = do
    d ← get_axis a id
    ok (set_field id (param_field param) val (record d { valid = false }) a)

  unfoldable pub get_axis_param : AxisId → AxisParam → Axes o → Exec F
  get_axis_param id param a = do d ← get_axis a id; ok (flt_of zero' (param_field param) d)

  abbrev pub set_bool_field : AxisId → Option Field → Bool → AxisDef F → Axes o → Bool × Axes o
  set_bool_field id none val d a = (false, a)
  set_bool_field id (some f) val d a =
      (true, save id f (if val then yes else no) (put_axis id (put_bool f val d) a))

  unfoldable pub set_axis_bool_param : AxisId → AxisParam → Bool → Axes o → Exec (Bool × Axes o)
  set_axis_bool_param id param val a = do
    d ← get_axis a id
    ok (set_bool_field id (bool_field param) val d a)

  unfoldable pub get_axis_bool_param : AxisId → AxisParam → Axes o → Exec Bool
  get_axis_bool_param id param a = do d ← get_axis a id; ok (bool_of (bool_field param) d)

  unfoldable pub axes_changed : Bool → Axes o → Bool × Axes o
  axes_changed reset_flag a =
      (a.axes_changed_flag, if reset_flag then record a { axes_changed_flag = false } else a)
