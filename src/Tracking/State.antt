-- ===== src/Tracking/State.antt =====
-- The static variables of src/tracking.c, and `ltr_int_init_tracking` and `ltr_int_recenter_tracking`.
use linux_track.Prelude.{ℕ, Bool, true, false, Option, List, if◌then◌else◌}
use linux_track.MathUtils.{MathOps, Vec}
use linux_track.Comm.{Blob}
use linux_track.Ltlib.Comm.{AbsPose, FullPose}

-- The bits of `ltr_int_get_orientation`.
pub record Orientation : Type 0 where
  pub flip_x : Bool
  pub flip_y : Bool
  pub xchg_xy : Bool
  pub from_behind : Bool

pub record Tracking (F : Type 0) : Type 0 where
  pub recenter : Bool
  pub init_recenter : Bool
  pub tracking_initialized : Bool
  pub orientation : Orientation
  pub behind : Bool
  pub current_pose : FullPose F
  pub counter_d : ℕ
  -- The static variables of `update_pose_1pt`.
  pub c_x : F
  pub c_y : F
  pub c_z : F

-- Floating-point numbers as src/tracking.c uses them: the conversion from an integer, 200 and
-- `cam_distance`.
pub record TrackOps : Type 1 where
  pub maths : MathOps
  pub of_uint : ℕ → maths.axis.F
  pub two_hundred : maths.axis.F
  pub cam_distance : maths.axis.F

-- The raw angles and translations.
pub record Raw (F : Type 0) : Type 0 where
  pub angles : Vec F
  pub translations : Vec F

-- What src/pose.c and the preferences answer while a frame is processed. `process_blobs` and
-- `sort_blobs` are `ltr_int_pose_process_blobs` and `ltr_int_pose_sort_blobs`.
pub record Solver (F : Type 0) : Type 0 where
  pub model_changed : Bool
  pub check_pose : Bool
  pub is_single_point : Bool
  pub is_face : Bool
  pub sort_blobs : List (Blob F) → List (Blob F)
  pub process_blobs : List (Blob F) → Bool → Option (Raw F × AbsPose F)

module _ {F : Type 0} where
  -- `ltr_int_init_tracking`, with the orientation of the preferences and the answer of
  -- `ltr_int_check_pose`.
  unfoldable pub init_tracking : Orientation → Bool → Tracking F → Bool × Tracking F
  init_tracking orientation checked t =
      let t₁ = record t { orientation = orientation; behind = orientation.from_behind } in
      if checked
      then (true, record t₁ { tracking_initialized = true; init_recenter = true; recenter = false })
      else (false, t₁)

  unfoldable pub recenter_tracking : Tracking F → Tracking F
  recenter_tracking t = record t { recenter = true }
