-- ===== src/Axes/Settings.antt =====
-- Setting a parameter of an axis.
use linux_track.Prelude.{
  Bool, true, false, none, inl, inr, Option-cases, ◌≡◌, ◌≢◌, refl, ap, ◌∙◌, some, arith,
}
use linux_track.Prelude.Exec.{ok, Returns, Returns-mono}
use linux_track.Axes.{
  AxisId, pitch, roll, yaw, tx, ty, tz, misc, AxisParam, axis_enabled, axis_deadzone, Field,
  field_key, AxisOps, AxisDef, Axes, get_axis, put_axis, param_field, bool_field, put_flt, flt_of,
  bool_of, set_axis_param, get_axis_param, get_axis_bool_param,
}

module _ {o : AxisOps} where
  get_axis-put_axis_other :
      (id other : AxisId) (d : AxisDef o.F) (a : Axes o)
      → id ≢ other
      → get_axis (put_axis id d a) other ≡ get_axis a other
  get_axis-put_axis_other pitch pitch d a ne = absurd (ne refl)
  get_axis-put_axis_other pitch _ d a ne = refl
  get_axis-put_axis_other roll roll d a ne = absurd (ne refl)
  get_axis-put_axis_other roll _ d a ne = refl
  get_axis-put_axis_other yaw yaw d a ne = absurd (ne refl)
  get_axis-put_axis_other yaw _ d a ne = refl
  get_axis-put_axis_other tx tx d a ne = absurd (ne refl)
  get_axis-put_axis_other tx _ d a ne = refl
  get_axis-put_axis_other ty ty d a ne = absurd (ne refl)
  get_axis-put_axis_other ty _ d a ne = refl
  get_axis-put_axis_other tz tz d a ne = absurd (ne refl)
  get_axis-put_axis_other tz _ d a ne = refl
  get_axis-put_axis_other misc other d a ne = refl

module _ {F : Type 0} where
  flt_of-put_flt :
      (z : F) (p : AxisParam) (f : Field) (v : F) (d : AxisDef F)
      → param_field p ≡ some f
      → flt_of z (some f) (put_flt f v d) ≡ v
  flt_of-put_flt z axis_deadzone f v d e = ground arith
  flt_of-put_flt z _ f v d e = ground arith

  flt_of-put_flt_other :
      (z : F) (p q : AxisParam) (f : Field) (v : F) (d : AxisDef F)
      → param_field p ≡ some f
      → p ≢ q
      → flt_of z (param_field q) (put_flt f v d) ≡ flt_of z (param_field q) d
  flt_of-put_flt_other z axis_deadzone axis_deadzone f v d e ne = absurd (ne refl)
  flt_of-put_flt_other z axis_deadzone _ f v d e ne = ground arith
  flt_of-put_flt_other z _ _ f v d e ne = ground arith

bool_of-put_flt :
    {F : Type 0} (p q : AxisParam) (f : Field) (v : F) (d : AxisDef F)
    → param_field p ≡ some f
    → bool_of (bool_field q) (put_flt f v d) ≡ bool_of (bool_field q) d
bool_of-put_flt axis_deadzone q f v d e = ground arith
bool_of-put_flt _ q f v d e = ground arith

flt_of-stale :
    {F : Type 0} (z : F) (q : AxisParam) (d : AxisDef F)
    → flt_of z (param_field q) (record d { valid = false }) ≡ flt_of z (param_field q) d
flt_of-stale z axis_deadzone d = refl
flt_of-stale z _ d = refl

bool_of-stale :
    {F : Type 0} (q : AxisParam) (d : AxisDef F)
    → bool_of (bool_field q) (record d { valid = false }) ≡ bool_of (bool_field q) d
bool_of-stale axis_enabled d = refl
bool_of-stale _ d = refl

module _ (o : AxisOps) where
  open o use {F, P, zero', show, change_key}

  -- Axis `id` with `val` for one parameter, which is saved under the field, and all else as before.
  pub record Written (id : AxisId) (param : AxisParam) (field : Field) (val : F) (a a' : Axes o)
      : Type 0 where
    pub value : get_axis_param o id param a' ≡ ok val
    pub params : (q : AxisParam) → param ≢ q → get_axis_param o id q a' ≡ get_axis_param o id q a
    pub bools : (q : AxisParam) → get_axis_bool_param o id q a' ≡ get_axis_bool_param o id q a
    pub others : (other : AxisId) → id ≢ other → get_axis a' other ≡ get_axis a other
    pub flag : a'.axes_changed_flag ≡ true
    pub section : a'.section ≡ a.section
    pub prefs : a'.prefs ≡ change_key a.prefs a.section (field_key id field) (show val)

  -- A parameter that is a number.
  pub set_axis_param-get_axis_param :
      (id : AxisId) (param : AxisParam) (field : Field) (val : F) (a : Axes o)
      → id ≢ misc
      → param_field param ≡ some field
      → Returns
          (λ (r, a'). (r ≡ true) × Written id param field val a a')
          (set_axis_param o id param val a)
  unfolding set_axis_param get_axis_param get_axis_bool_param
  set_axis_param-get_axis_param misc param field val a ne e = absurd (ne refl)
  set_axis_param-get_axis_param _ param field val a ne e = rw e (
    refl,
    record {
      value = rw e (ap ok (flt_of-put_flt zero' param field val _ e));
      params = λ q other.
          ap ok (flt_of-put_flt_other zero' param q field val _ e other ∙ flt_of-stale zero' q _);
      bools = λ q. ap ok (bool_of-put_flt param q field val _ e ∙ bool_of-stale q _);
      others = λ other apart. get_axis-put_axis_other _ other _ a apart;
      flag = refl;
      section = refl;
      prefs = refl;
    },
  )

  -- The call wrote a number, or refused the parameter and left all settings as they were.
  pub data Outcome (id : AxisId) (param : AxisParam) (val : F) (a : Axes o)
      : Bool × Axes o → Type 0 where
    written :
        {a' : Axes o} (field : Field)
        → param_field param ≡ some field
        → Written id param field val a a'
        → Outcome id param val a (true, a')
    refused :
        {a' : Axes o}
        → param_field param ≡ none
        → ((q : AxisParam) → get_axis_param o id q a' ≡ get_axis_param o id q a)
        → ((q : AxisParam) → get_axis_bool_param o id q a' ≡ get_axis_bool_param o id q a)
        → ((other : AxisId) → id ≢ other → get_axis a' other ≡ get_axis a other)
        → a'.axes_changed_flag ≡ a.axes_changed_flag
        → a'.prefs ≡ a.prefs
        → Outcome id param val a (false, a')

  set_axis_param-refused :
      (id : AxisId) (param : AxisParam) (val : F) (a : Axes o)
      → id ≢ misc
      → param_field param ≡ none
      → Returns (Outcome id param val a) (set_axis_param o id param val a)
  unfolding set_axis_param get_axis_param get_axis_bool_param
  set_axis_param-refused misc param val a ne e = absurd (ne refl)
  set_axis_param-refused _ param val a ne e = rw e (
      refused e (λ q. ap ok (flt_of-stale zero' q _)) (λ q. ap ok (bool_of-stale q _))
        (λ other apart. get_axis-put_axis_other _ other _ a apart) refl refl)

  -- For each axis, `ltr_int_set_axis_param` returns true for a parameter that is a number, and false for any other.
  -- If true, `ltr_int_get_axis_param` gives the value set, every other parameter of this axis and the other
  -- axes are as before, the change is flagged, and one key of the preferences is changed, to the value. If
  -- false, every parameter of every axis, the change flag and the preferences are as before.
  pub set_axis_param-Outcome :
      (id : AxisId) (param : AxisParam) (val : F) (a : Axes o)
      → id ≢ misc
      → Returns (Outcome id param val a) (set_axis_param o id param val a)
  set_axis_param-Outcome id param val a ne = elim (Option-cases (param_field param)) [
    | inl e ↦ set_axis_param-refused id param val a ne e
    | inr (field, e) ↦
        Returns-mono _ (Outcome id param val a) (set_axis_param o id param val a)
          (set_axis_param-get_axis_param id param field val a ne e)
          (λ (r, a') (t, w). as_written r a' field e t w)
  ]
    where
      as_written :
          (r : Bool) (a' : Axes o) (field : Field)
          → param_field param ≡ some field
          → r ≡ true
          → Written id param field val a a'
          → Outcome id param val a (r, a')
      as_written true a' field e t w = written field e w
      as_written false a' field e t w = absurd (ground arith)
