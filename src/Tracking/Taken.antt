-- ===== src/Tracking/Taken.antt =====
-- `ltr_int_update_pose` of src/tracking.c puts the blobs of a frame into the pose.
use linux_track.Prelude.{
  ℕ, ◌≤◌, ◌≡◌, refl, Bool, true, false, List, [], ◌∷◌, length, replicate, drop, if◌then◌else◌,
  arith, ◌∙◌, Option, none, some,
}
use linux_track.Prelude.Exec.{Returns}
use linux_track.Comm.{Blob}
use linux_track.Ltlib.Comm.{AbsPose}
use linux_track.Tracking.State.{Tracking, TrackOps, Solver, Raw}
use linux_track.Tracking.Update.{
  TrackedFrame, take_blobs, update_pose, update_pose_1pt, update_pose_3pt, recenter_1pt,
  count_frame, three_finite, update_first, note_model, update_solved,
}
use linux_track.Tracking.Blobs.{flat, length-flat, write_blobs-flat, HasBlobs, upright, same_blobs}

module _ (o : TrackOps) where
  open o use {maths, of_uint}
  open maths use {axis}
  open axis use {F, zero'}

  abbrev Keeps : Tracking F → Bool × Tracking F → Type 0
  Keeps t r =
      (r.1.current_pose.blobs ≡ t.current_pose.blobs)
      × (r.1.current_pose.blob_list ≡ t.current_pose.blob_list)
      × (r.1.tracking_initialized ≡ t.tracking_initialized)

  count_frame-Keeps :
      (t : Tracking F) (r : Bool × Tracking F) → Keeps t r → Keeps t (count_frame o r)
  unfolding count_frame
  count_frame-Keeps t (false, u) k = k
  count_frame-Keeps t (true, u) k = ground (arith, k)

  if-Keeps :
      (b : Bool) (t : Tracking F) (x y : Bool × Tracking F)
      → Keeps t x
      → Keeps t y
      → Keeps t (if b then x else y)
  if-Keeps true t x y p q = p
  if-Keeps false t x y p q = q

  update_first-Keeps :
      (solver : Solver F) (width : ℕ) (bs : List (Blob F)) (t : Tracking F)
      → Keeps t (update_first o solver width bs t)
  unfolding update_first recenter_1pt
  update_first-Keeps solver width [] t = (refl, refl, refl)
  update_first-Keeps solver width (b ∷ bs) t = ground arith

  update_solved-Keeps :
      (answer : Option (Raw F × AbsPose F)) (t : Tracking F) → Keeps t (update_solved o answer t)
  unfolding update_solved
  update_solved-Keeps none t = (refl, refl, refl)
  update_solved-Keeps (some (r, abs_pose)) t = ground arith

  update_pose_1pt-Keeps :
      (solver : Solver F) (frame : TrackedFrame F) (t : Tracking F)
      → Keeps t (update_pose_1pt o solver frame t)
  unfolding update_pose_1pt
  update_pose_1pt-Keeps solver frame t =
      if-Keeps solver.check_pose t _ (false, t)
        (update_first-Keeps solver frame.width frame.blobs t) (refl, refl, refl)

  update_pose_3pt-Keeps :
      (solver : Solver F) (frame : TrackedFrame F) (t : Tracking F)
      → Keeps t (update_pose_3pt o solver frame t)
  unfolding update_pose_3pt
  update_pose_3pt-Keeps solver frame t =
      if-Keeps (three_finite o frame.blobs) t _ (false, t)
        (update_solved-Keeps (solver.process_blobs frame.blobs t.recenter) t) (refl, refl, refl)

  pub note_model-orientation :
      (b : Bool) (t : Tracking F) → (note_model o b t).orientation ≡ t.orientation
  unfolding note_model
  note_model-orientation true t = refl
  note_model-orientation false t = refl

  update-Keeps :
      (b : Bool) (solver : Solver F) (frame : TrackedFrame F) (t : Tracking F)
      → Keeps t ((if b then update_pose_1pt o else update_pose_3pt o) solver frame t)
  update-Keeps true solver frame t = update_pose_1pt-Keeps solver frame t
  update-Keeps false solver frame t = update_pose_3pt-Keeps solver frame t

  note_model-initialized :
      (b : Bool) (t : Tracking F) → (note_model o b t).tracking_initialized ≡ t.tracking_initialized
  unfolding note_model
  note_model-initialized true t = refl
  note_model-initialized false t = refl

  -- The blobs that the tracking took, and whether it is set up.
  pub record Took (bs : List (Blob F)) (started : Bool) (r : Bool × Tracking F) : Type 0 where
    pub blobs : HasBlobs o bs r.1.current_pose
    pub initialized : r.1.tracking_initialized ≡ started

  taken-Took :
      (bs : List (Blob F)) (started single : Bool) (solver : Solver F) (frame : TrackedFrame F)
      (t : Tracking F)
      → HasBlobs o bs t.current_pose
      → t.tracking_initialized ≡ started
      → Took bs started
          (count_frame o ((if single then update_pose_1pt o else update_pose_3pt o) solver frame t))
  taken-Took bs started single solver frame t r e =
      let u = (if single then update_pose_1pt o else update_pose_3pt o) solver frame t in
      let k = count_frame-Keeps t u (update-Keeps single solver frame t) in
      record {
        blobs = same_blobs o bs t.current_pose (count_frame o u).1.current_pose k.0 k.1 r;
        initialized = k.2 ∙ e;
      }

  -- The blobs of a frame, ten at most, turned upright o and sorted, are put into the pose, whether the
  -- frame gives a new pose or not.
  pub update_pose-Took :
      (solver : Solver F) (frame : TrackedFrame F) (t : Tracking F)
      → length (upright o solver t frame) ≤ 10
      → Returns
          (Took (upright o solver t frame) t.tracking_initialized)
          (update_pose o solver frame t)
  unfolding update_pose take_blobs upright
  update_pose-Took solver frame t few =
      let bs = upright o solver t frame in
      let fits = write_blobs-flat o bs (replicate 30 zero') (omega (arith, length-flat o bs)) in
      rw (note_model-orientation solver.model_changed t, fits)
        (taken-Took bs t.tracking_initialized solver.is_single_point solver _ _
          (record {
            number = refl;
            rest = drop (length (flat o bs)) (replicate 30 zero');
            values = refl;
          })
          (note_model-initialized solver.model_changed t))
