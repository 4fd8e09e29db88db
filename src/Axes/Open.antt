-- ===== src/Axes/Open.antt =====
-- src/axis.c: reading the settings of the axes from a section of the preferences. The section was found
-- or made by `ltr_int_prepare_section` before.
pub mod Saved
pub mod Reopened
use linux_track.Prelude.{
  ℕ, Bool, true, false, ◌&&◌, Option, none, some, List, [], ◌∷◌, if◌then◌else◌,
}
use linux_track.Axes.{
  AxisId, pitch, roll, yaw, tx, ty, tz, misc, Field, deadzone, inverted, lcurv, rcurv, mult, lmult,
  rmult, limits, llimit, rlimit, filter, enabled, Key, field_key, filter_factor_key, AxisOps,
  AxisDef, Splines, Axes,
}

-- The fields in the order of the loop.
abbrev pub all_fields : List Field
all_fields =
    deadzone ∷ inverted ∷ lcurv ∷ rcurv ∷ mult ∷ lmult ∷ rmult ∷ limits ∷ llimit ∷ rlimit ∷ filter
    ∷ enabled ∷ []

module _ (o : AxisOps) where
  open o use {
    F, zero', one, two, four, fifty, ninety, three_hundred, half, fifth, add, div, lt, V, show,
    read, is_yes, is_no, P, get_key, change_key,
  }

  -- `ltr_int_axis_get_key` and `ltr_int_axis_get_key_flt`: a key that the section lacks is copied from
  -- the section Default, the number in it as a number.
  abbrev pub copied : (V → V) → ℕ → Key → P → Option V → Option V × P
  copied f section key p none = (none, p)
  copied f section key p (some v) = (some v, change_key p section key (f v))

  abbrev or_default : (V → V) → ℕ → Key → P → Option V → Option V × P
  or_default f section key p (some v) = (some v, p)
  or_default f section key p none = copied f section key p (get_key p 0 key)

  abbrev pub again : V → V
  again v = show (read v)

  unfoldable pub axis_get_key : (V → V) → ℕ → Key → P → Option V × P
  axis_get_key f section key p = or_default f section key p (get_key p section key)

  -- `axis->curves` and the rest of what is allocated is not written.
  abbrev pub fresh_axis : Splines F → AxisDef F
  fresh_axis garbage = record {
    enabled = true;
    inverted = false;
    curve_defs = record { dead_zone = zero'; l_curvature = half; r_curvature = half };
    curves = garbage;
    valid = false;
    factor = one;
    l_limit = fifty;
    r_limit = fifty;
    filter_factor = fifth;
  }

  -- LTR_AXIS_FILTER_MAX limits the number of the key, or the default.
  abbrev limited_filter : AxisDef F → AxisDef F
  limited_filter d = record d {
    filter_factor = if lt four d.filter_factor then four else d.filter_factor;
  }

  abbrev pub first_filter : Option V → AxisDef F → AxisDef F
  first_filter none d = limited_filter d
  first_filter (some v) d = limited_filter (record d { filter_factor = read v })

  abbrev is_rotation : AxisId → Bool
  is_rotation pitch = true
  is_rotation roll = true
  is_rotation yaw = true
  is_rotation _ = false

  abbrev set_axis_field : Field → F → AxisId → AxisDef F → AxisDef F
  set_axis_field deadzone val id d = record d {
    valid = false;
    curve_defs = record d.curve_defs { dead_zone = val };
  }
  set_axis_field lcurv val id d = record d {
    valid = false;
    curve_defs = record d.curve_defs { l_curvature = val };
  }
  set_axis_field rcurv val id d = record d {
    valid = false;
    curve_defs = record d.curve_defs { r_curvature = val };
  }
  set_axis_field mult val id d = record d { valid = false; factor = val }
  set_axis_field lmult val id d = record d { valid = false; factor = add d.factor (div val two) }
  set_axis_field rmult val id d = record d { valid = false; factor = add d.factor (div val two) }
  set_axis_field llimit val id d = record d { valid = false; l_limit = val }
  set_axis_field rlimit val id d = record d { valid = false; r_limit = val }
  set_axis_field limits val id d =
      let limit = if is_rotation id then ninety else three_hundred in
      record d { valid = false; l_limit = limit; r_limit = limit }
  set_axis_field filter val id d = record d {
    valid = false;
    filter_factor = if lt two val then two else val;
  }
  set_axis_field _ val id d = d

  -- What a field's text does.
  abbrev pub apply_text : Field → AxisId → Option V → AxisDef F → AxisDef F
  apply_text f id none d = d
  apply_text enabled id (some v) d = if is_no v then record d { enabled = false } else d
  apply_text inverted id (some v) d = if is_yes v then record d { inverted = true } else d
  apply_text f id (some v) d = set_axis_field f (read v) id d

  -- How a text is copied from Default.
  abbrev pub copy_of : Field → V → V
  copy_of enabled v = v
  copy_of inverted v = v
  copy_of _ v = again v

  -- The loop over the fields.
  unfoldable pub read_fields : ℕ → AxisId → List Field → AxisDef F × P → AxisDef F × P
  unfolding axis_get_key
  read_fields section id [] s = s
  read_fields section id (f ∷ fs) (d, p) =
      let (text, p') = axis_get_key (copy_of f) section (field_key id f) p in
      read_fields section id fs (apply_text f id text d, p')

  -- `ltr_int_init_axis` and `ltr_int_get_axis`
  unfoldable pub read_axis : Splines F → ℕ → AxisId → P → AxisDef F × P
  unfolding axis_get_key read_fields
  read_axis garbage section id p =
      let (text, p') = axis_get_key again section filter_factor_key p in
      read_fields section id all_fields (first_filter text (fresh_axis garbage), p')

  -- `ltr_int_init_axes` from the section on.
  unfoldable pub init_axes : Splines F → ℕ → P → Axes o
  unfolding read_axis
  init_axes garbage section p0 =
      let (d1, p1) = read_axis garbage section pitch p0 in
      let (d2, p2) = read_axis garbage section yaw p1 in
      let (d3, p3) = read_axis garbage section roll p2 in
      let (d4, p4) = read_axis garbage section tx p3 in
      let (d5, p5) = read_axis garbage section ty p4 in
      let (d6, p6) = read_axis garbage section tz p5 in
      record {
        pitch_axis = d1;
        yaw_axis = d2;
        roll_axis = d3;
        tx_axis = d4;
        ty_axis = d5;
        tz_axis = d6;
        axes_changed_flag = false;
        section = section;
        prefs = p6;
      }
