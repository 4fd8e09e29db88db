-- ===== src/Ltlib/Poses.antt =====
-- `ltr_get_pose`, `ltr_get_abs_pose` and `ltr_get_pose_full` of src/ltlib.c: a client copies the last
-- pose.
use linux_track.Prelude.{ℕ, zero, suc, ◌*◌, Option, none, some, List, ◌∷◌, ◌==◌, ltb, if◌then◌else◌}
use linux_track.Prelude.Exec.{Exec, ok, fault, ◌>>=◌}
use linux_track.Ltlib.Comm.{linuxtrack_ok, is_good, Pose, FullPose}
use linux_track.Ltlib.Calls.{Client, detached}

-- What the six pointers and `*counter` are given.
pub record SixValues (F : Type 0) : Type 0 where
  pub heading : F
  pub pitch : F
  pub roll : F
  pub tx : F
  pub ty : F
  pub tz : F
  pub counter : ℕ

-- `BLOB_ELEMENTS`
abbrev pub blob_elements : ℕ
blob_elements = 3

-- The first `n` values of an array are copied to another.
unfoldable pub copy_first : {A : Type 0} → ℕ → List A → List A → Exec (List A)
copy_first zero src dst = ok dst
copy_first (suc n) (s ∷ src) (d ∷ dst) = do rest ← copy_first n src dst; ok (s ∷ rest)
copy_first (suc n) src dst = fault

-- What `ltr_get_pose_full` leaves in `*pose`, the caller's array and `*blobs_read`.
pub record FullAnswer (F : Type 0) : Type 0 where
  pub result : ℕ
  pub pose : Pose F
  pub blobs : List F
  pub blobs_read : ℕ

module _ {F : Type 0} (zero' : F) where
  -- 1 where the counter is another than the one that was passed.
  abbrev pub new_data : ℕ → ℕ → ℕ
  new_data passed counter = if passed == counter then 0 else 1

  abbrev pub no_values : SixValues F
  no_values = record {
    heading = zero';
    pitch = zero';
    roll = zero';
    tx = zero';
    ty = zero';
    tz = zero';
    counter = 0;
  }

  abbrev pub values_of : FullPose F → SixValues F
  values_of p = record {
    heading = p.pose.yaw;
    pitch = p.pose.pitch;
    roll = p.pose.roll;
    tx = p.pose.tx;
    ty = p.pose.ty;
    tz = p.pose.tz;
    counter = p.pose.counter;
  }

  abbrev pub abs_values_of : FullPose F → SixValues F
  abs_values_of p = record {
    heading = p.abs_pose.abs_yaw;
    pitch = p.abs_pose.abs_pitch;
    roll = p.abs_pose.abs_roll;
    tx = p.abs_pose.abs_tx;
    ty = p.abs_pose.abs_ty;
    tz = p.abs_pose.abs_tz;
    counter = p.pose.counter;
  }

  -- The result, and what is written, `none` where nothing is.
  abbrev pub get_values : (FullPose F → SixValues F) → Client F → ℕ → ℕ × Option (SixValues F)
  get_values read c passed =
      if detached c
      then (0, none)
      else if is_good c.shared.state
      then (let v = read c.shared.full_pose in (new_data passed v.counter, some v))
      else (0, some no_values)

  unfoldable pub get_pose : Client F → ℕ → ℕ × Option (SixValues F)
  get_pose = get_values values_of

  unfoldable pub get_abs_pose : Client F → ℕ → ℕ × Option (SixValues F)
  get_abs_pose = get_values abs_values_of

  abbrev pub no_pose : Pose F
  no_pose = record {
    pitch = zero';
    yaw = zero';
    roll = zero';
    tx = zero';
    ty = zero';
    tz = zero';
    counter = 0;
    resolution_x = 0;
    resolution_y = 0;
    raw_pitch = zero';
    raw_yaw = zero';
    raw_roll = zero';
    raw_tx = zero';
    raw_ty = zero';
    raw_tz = zero';
    status = linuxtrack_ok;
  }

  -- The array holds `num_blobs` times three values at least.
  unfoldable pub get_pose_full : Client F → Pose F → List F → ℕ → Exec (Option (FullAnswer F))
  get_pose_full c pose blobs num_blobs =
      if detached c
      then ok none
      else if is_good c.shared.state
      then (do
        let p = c.shared.full_pose
        let blobs_read = if ltb num_blobs p.blobs then num_blobs else p.blobs
        copied ← copy_first (blobs_read * blob_elements) p.blob_list blobs
        ok (
            some (record {
              result = new_data pose.counter p.pose.counter;
              pose = p.pose;
              blobs = copied;
              blobs_read = blobs_read;
            })))
      else ok (some (record { result = 0; pose = no_pose; blobs = blobs; blobs_read = 0 }))
