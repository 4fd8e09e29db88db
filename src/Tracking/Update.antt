-- ===== src/Tracking/Update.antt =====
-- `ltr_int_update_pose` of src/tracking.c: each frame's blobs are turned upright, sorted, passed on, and
-- give a new pose.
use linux_track.Prelude.{
  ℕ, ◌+◌, Bool, true, false, ◌&&◌, Option, none, some, List, [], ◌∷◌, map, length, replicate, ltb,
  u32, sub32, if◌then◌else◌,
}
use linux_track.Prelude.Exec.{Exec, ok, fault, ◌>>=◌}
use linux_track.MathUtils.{vec, is_finite, is_vector_finite}
use linux_track.Comm.{Blob}
use linux_track.Ltlib.Comm.{Pose, AbsPose}
use linux_track.Tracking.State.{Orientation, Tracking, TrackOps, Raw, Solver}

-- The frame as the tracking sees it.
pub record TrackedFrame (F : Type 0) : Type 0 where
  pub width : ℕ
  pub height : ℕ
  pub blobs : List (Blob F)

module _ (o : TrackOps) where
  open o use {maths, of_uint, two_hundred, cam_distance}
  open maths use {axis}
  open axis use {F, zero', one, sub, mul, div, neg, sqrt}

  -- `ltr_int_rotate_camera`
  unfoldable pub rotate_camera : Orientation → F × F → F × F
  rotate_camera cam (x, y) =
      let tmp_x = if cam.xchg_xy then y else x in
      let tmp_y = if cam.xchg_xy then x else y in
      (if cam.flip_x then neg tmp_x else tmp_x, if cam.flip_y then neg tmp_y else tmp_y)

  abbrev pub rotate_blob : Orientation → Blob F → Blob F
  rotate_blob cam b = let r = rotate_camera cam (b.x, b.y) in record b { x = r.0; y = r.1 }

  unfoldable pub remove_camera_rotation : Orientation → List (Blob F) → List (Blob F)
  remove_camera_rotation cam bl = map (rotate_blob cam) bl

  -- The three values of each blob, from the start of the array on.
  unfoldable pub write_blobs : List (Blob F) → List F → Exec (List F)
  write_blobs [] l = ok l
  write_blobs (b ∷ bs) (_ ∷ (_ ∷ (_ ∷ l))) = do
    rest ← write_blobs bs l
    ok (b.x ∷ (b.y ∷ (of_uint b.score ∷ rest)))
  write_blobs (b ∷ bs) l = fault

  abbrev pub blob_finite : Blob F → Bool
  blob_finite b = is_finite maths b.x && is_finite maths b.y

  abbrev pub negated : F → F
  negated x = mul x (neg one)

  abbrev pub put_raw : Raw F → Pose F → Pose F
  put_raw r p = record p {
    raw_pitch = r.angles.v0;
    raw_yaw = r.angles.v1;
    raw_roll = r.angles.v2;
    raw_tx = r.translations.v0;
    raw_ty = r.translations.v1;
    raw_tz = r.translations.v2;
  }

  abbrev pub put_pose : Raw F → AbsPose F → Tracking F → Tracking F
  put_pose r abs_pose t = record t {
    current_pose = record t.current_pose {
      pose = put_raw r t.current_pose.pose;
      abs_pose = abs_pose;
    };
  }

  abbrev pub no_abs_pose : AbsPose F
  no_abs_pose = record {
    abs_yaw = zero';
    abs_pitch = zero';
    abs_roll = zero';
    abs_tx = zero';
    abs_ty = zero';
    abs_tz = zero';
  }

  abbrev pub size_of : Blob F → F
  size_of b = sqrt (of_uint b.score)

  -- The centre is where the blob is now, if that was asked for.
  unfoldable pub recenter_1pt : Blob F → Tracking F → Tracking F
  recenter_1pt b t =
      if t.recenter
      then record t { c_x = b.x; c_y = b.y; c_z = mul cam_distance (size_of b); recenter = false }
      else t

  unfoldable pub raw_1pt : Solver F → ℕ → Blob F → Tracking F → Raw F
  raw_1pt solver width b t =
      let pitch = div (mul (sub b.y t.c_y) two_hundred) (of_uint width) in
      let yaw = div (mul (sub t.c_x b.x) two_hundred) (of_uint width) in
      let tz =
        if solver.is_face && ltb 0 b.score
        then sub (div t.c_z (size_of b)) cam_distance
        else zero' in
      record {
        angles = vec (if t.behind then negated pitch else pitch) yaw zero';
        translations = vec zero' zero' (if t.behind then negated tz else tz);
      }

  -- The rest, with the first blob.
  unfoldable pub update_first : Solver F → ℕ → List (Blob F) → Tracking F → Bool × Tracking F
  update_first solver width [] t = (false, t)
  update_first solver width (b ∷ _) t =
      if blob_finite b
      then (let t₁ = recenter_1pt b t in
          (true, put_pose (raw_1pt solver width b t₁) no_abs_pose t₁))
      else (false, t)

  -- The result is true for 0, false for -1.
  unfoldable pub update_pose_1pt : Solver F → TrackedFrame F → Tracking F → Bool × Tracking F
  update_pose_1pt solver frame t =
      if solver.check_pose then update_first solver frame.width frame.blobs t else (false, t)

  abbrev pub three_finite : List (Blob F) → Bool
  three_finite (a ∷ (b ∷ (c ∷ _))) = blob_finite a && blob_finite b && blob_finite c
  three_finite _ = false

  -- `behind` turns the pitch, the roll, the sideways and the forward movement.
  abbrev pub from_behind : Bool → Raw F → Raw F
  from_behind b r =
      if b
      then record {
        angles = vec (negated r.angles.v0) r.angles.v1 (negated r.angles.v2);
        translations =
            vec (negated r.translations.v0) r.translations.v1 (negated r.translations.v2);
      }
      else r

  -- From the answer of the solver on.
  unfoldable pub update_solved : Option (Raw F × AbsPose F) → Tracking F → Bool × Tracking F
  update_solved none t = (false, t)
  update_solved (some (r, abs_pose)) t =
      let t₁ = record t { recenter = false } in
      if is_vector_finite maths r.angles && is_vector_finite maths r.translations
      then (true, put_pose (from_behind t.behind r) abs_pose t₁)
      else (false, t₁)

  unfoldable pub update_pose_3pt : Solver F → TrackedFrame F → Tracking F → Bool × Tracking F
  update_pose_3pt solver frame t =
      if three_finite frame.blobs
      then update_solved (solver.process_blobs frame.blobs t.recenter) t
      else (false, t)

  -- A changed model is centred anew.
  unfoldable pub note_model : Bool → Tracking F → Tracking F
  note_model true t = record t { recenter = true }
  note_model false t = t

  -- The part before the pose: the blobs that are left in the frame, and the state.
  unfoldable pub take_blobs :
      Solver F → TrackedFrame F → Tracking F → Exec (TrackedFrame F × Tracking F)
  take_blobs solver frame t = do
    let t₁ = note_model solver.model_changed t
    let blobs = solver.sort_blobs (remove_camera_rotation t₁.orientation frame.blobs)
    blob_list ← write_blobs blobs (replicate 30 zero')
    let p = t₁.current_pose
    ok (
      record frame { blobs = blobs },
      record t₁ {
        current_pose = record p {
          pose = record p.pose { resolution_x = frame.width; resolution_y = frame.height };
          blob_list = blob_list;
          blobs = length blobs;
        };
      },
    )

  -- A valid frame is counted, but for the first one.
  unfoldable pub count_frame : Bool × Tracking F → Bool × Tracking F
  count_frame (false, t) = (false, t)
  count_frame (true, t) =
      let t₁ = record t { counter_d = u32 (t.counter_d + 1) } in
      if t.init_recenter
      then (
        false,
        record t₁ { init_recenter = false; recenter = true; counter_d = sub32 t₁.counter_d 1 },
      )
      else (true, t₁)

  -- `ltr_int_update_pose`: true for 0, false for any other result.
  unfoldable pub update_pose : Solver F → TrackedFrame F → Tracking F → Exec (Bool × Tracking F)
  update_pose solver frame t = do
    taken ← take_blobs solver frame t
    let update = if solver.is_single_point then update_pose_1pt else update_pose_3pt
    ok (count_frame (update solver taken.0 taken.1))
