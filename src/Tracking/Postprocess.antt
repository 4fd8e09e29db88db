-- ===== src/Tracking/Postprocess.antt =====
-- `ltr_int_postprocess_axes` of src/tracking.c: the raw pose goes through the curves and the filters of
-- the axes.
use linux_track.Prelude.{Bool, true, false, if◌then◌else◌}
use linux_track.Prelude.Exec.{Exec, ok, ◌>>=◌}
use linux_track.MathUtils.{
  MathOps, Vec, vec, is_vector_finite, clamp_angle, nonlinfilt, euler_to_matrix, matrix_times_vec,
}
use linux_track.Axes.{AxisId, pitch, roll, yaw, tx, ty, tz, Axes}
use linux_track.Axes.Curve.{val_on_axis, filter_axis}
use linux_track.Ltlib.Comm.{Pose}

-- The static variables `filtered_angles` and `filtered_translations`.
pub record Filtered (F : Type 0) : Type 0 where
  pub angles : Vec F
  pub translations : Vec F

module _ (o : MathOps) where
  open o use {axis, one_eighty, pi}
  open axis use {F, mul, div}

  -- What the function leaves: its result, `*pose`, the static variables and the axes.
  pub record Processed : Type 0 where
    pub result : Bool
    pub pose : Pose F
    pub filtered : Filtered F
    pub axes : Axes axis

  abbrev pub values_on_axes :
      AxisId → AxisId → AxisId → Vec F → Axes axis → Exec (Vec F × Axes axis)
  values_on_axes i j k raw a = do
    p ← val_on_axis axis i raw.v0 a
    q ← val_on_axis axis j raw.v1 p.1
    r ← val_on_axis axis k raw.v2 q.1
    ok (vec p.0 q.0 r.0, r.1)

  -- The filtered values, and what the filters remember.
  abbrev pub filter_axes :
      AxisId → AxisId → AxisId → Vec F → Vec F → Axes axis → Exec (Vec F × Vec F)
  filter_axes i j k x old a = do
    p ← filter_axis axis (nonlinfilt o) i x.v0 old.v0 a
    q ← filter_axis axis (nonlinfilt o) j x.v1 old.v1 a
    r ← filter_axis axis (nonlinfilt o) k x.v2 old.v2 a
    ok (vec p.0 q.0 r.0, vec p.1 q.1 r.1)

  abbrev pub radians : F → F
  radians x = mul (div x one_eighty) pi

  -- The translation as seen from the head that is turned.
  abbrev pub aligned : Bool → Vec F → Pose F → Vec F
  aligned tr_align displacement p =
      if tr_align
      then matrix_times_vec o (euler_to_matrix o (radians p.pitch) (radians p.yaw) (radians p.roll))
          displacement
      else displacement

  -- The end, where the translation is finite and where it is not.
  unfoldable pub settle : Bool → Pose F → Filtered F → Vec F × Vec F → Axes axis → Processed
  settle true turned f translations a = record {
    result = true;
    pose = record turned { tx = translations.0.v0; ty = translations.0.v1; tz = translations.0.v2 };
    filtered = record f { translations = translations.1 };
    axes = a;
  }
  settle false turned f translations a = record {
    result = false;
    pose = turned;
    filtered = f;
    axes = a;
  }

  -- From the filtering of the angles on.
  unfoldable pub filter_pose : Bool → Vec F → Pose F → Filtered F → Axes axis → Exec Processed
  filter_pose tr_align raw_angles pose f a = do
    angles ← filter_axes pitch yaw roll raw_angles f.angles a
    let turned = record pose {
      pitch = clamp_angle o angles.0.v0;
      yaw = clamp_angle o angles.0.v1;
      roll = clamp_angle o angles.0.v2;
    }
    let f₁ = record f { angles = angles.1 }
    moved ← values_on_axes tx ty tz (vec pose.raw_tx pose.raw_ty pose.raw_tz) a
    let unfiltered = aligned tr_align moved.0 turned
    translations ← filter_axes tx ty tz unfiltered f.translations moved.1
    ok (
        settle (if tr_align then is_vector_finite o unfiltered else true) turned f₁ translations
          moved.1)

  unfoldable pub postprocess_axes : Bool → Pose F → Filtered F → Axes axis → Exec Processed
  postprocess_axes tr_align pose f a = do
    raw ← values_on_axes pitch yaw roll (vec pose.raw_pitch pose.raw_yaw pose.raw_roll) a
    if is_vector_finite o raw.0
        then filter_pose tr_align raw.0 pose f raw.1
        else ok (record { result = false; pose = pose; filtered = f; axes = raw.1 })
