-- ===== src/Tracking/GetPose.antt =====
-- `ltr_int_tracking_get_pose` of src/tracking.c: the master process asks for the last pose.
use linux_track.Prelude.{◌*◌, Bool, if◌then◌else◌}
use linux_track.Prelude.Exec.{Exec, ok, ◌>>=◌}
use linux_track.Ltlib.Comm.{FullPose}
use linux_track.Ltlib.Poses.{copy_first, blob_elements}
use linux_track.Tracking.State.{Orientation, Tracking, init_tracking}

module _ {F : Type 0} where
  -- The tracking is set up first where it was not, with this orientation and answer of
  -- `ltr_int_check_pose`.
  abbrev pub initialized_first : Orientation → Bool → Tracking F → Tracking F
  initialized_first orientation checked t =
      if t.tracking_initialized then t else (init_tracking orientation checked t).1

  -- The part under the lock; `pose` is what the caller passes, and its status is kept.
  unfoldable pub read_pose : FullPose F → Tracking F → Exec (FullPose F × Tracking F)
  read_pose pose t = do
    let current = record t.current_pose {
      pose = record t.current_pose.pose { status = pose.pose.status };
    }
    blob_list ← copy_first (current.blobs * blob_elements) current.blob_list pose.blob_list
    ok (
      record {
        pose = record current.pose { counter = t.counter_d };
        abs_pose = current.abs_pose;
        blobs = current.blobs;
        blob_list = blob_list;
      },
      record t { current_pose = current },
    )

  unfoldable pub tracking_get_pose :
      Orientation → Bool → FullPose F → Tracking F → Exec (FullPose F × Tracking F)
  tracking_get_pose orientation checked pose t =
      read_pose pose (initialized_first orientation checked t)
