-- ===== src/Tracking/Counted.antt =====
-- Which frames are counted, and when the view is centred.
use linux_track.Prelude.{
  ℕ, ◌+◌, ◌^◌, ◌≤◌, ◌<◌, ◌≡◌, refl, Bool, true, false, List, [], ◌∷◌, length, replicate, u32,
  if◌then◌else◌, Bool-cases, inl, inr, arith, sym, ap, ◌∙◌, Option, none, some,
}
use linux_track.Prelude.Exec.{Returns}
use linux_track.Comm.{Blob}
use linux_track.Ltlib.Comm.{AbsPose}
use linux_track.Tracking.State.{Tracking, TrackOps, Solver, Raw}
use linux_track.Tracking.Update.{
  TrackedFrame, take_blobs, update_pose, update_pose_1pt, update_pose_3pt, recenter_1pt,
  count_frame, three_finite, update_first, update_solved, note_model,
}
use linux_track.Tracking.Blobs.{length-flat, write_blobs-flat, upright}
use linux_track.Tracking.Taken.{note_model-orientation}

module _ (o : TrackOps) where
  open o use {maths}
  open maths use {axis}
  open axis use {F, zero'}

  -- The counter, and whether the first valid frame is still awaited, are as they were.
  abbrev Uncounted : Tracking F → Bool × Tracking F → Type 0
  Uncounted t r = (r.1.counter_d ≡ t.counter_d) × (r.1.init_recenter ≡ t.init_recenter)

  if-Uncounted :
      (b : Bool) (t : Tracking F) (x y : Bool × Tracking F)
      → Uncounted t x
      → Uncounted t y
      → Uncounted t (if b then x else y)
  if-Uncounted true t x y p q = p
  if-Uncounted false t x y p q = q

  update_first-Uncounted :
      (solver : Solver F) (width : ℕ) (bs : List (Blob F)) (t : Tracking F)
      → Uncounted t (update_first o solver width bs t)
  unfolding update_first recenter_1pt
  update_first-Uncounted solver width [] t = (refl, refl)
  update_first-Uncounted solver width (b ∷ bs) t = ground arith

  update_solved-Uncounted :
      (answer : Option (Raw F × AbsPose F)) (t : Tracking F)
      → Uncounted t (update_solved o answer t)
  unfolding update_solved
  update_solved-Uncounted none t = (refl, refl)
  update_solved-Uncounted (some (r, abs_pose)) t = ground arith

  update-Uncounted :
      (b : Bool) (solver : Solver F) (frame : TrackedFrame F) (t : Tracking F)
      → Uncounted t ((if b then update_pose_1pt o else update_pose_3pt o) solver frame t)
  unfolding update_pose_1pt update_pose_3pt
  update-Uncounted true solver frame t =
      if-Uncounted solver.check_pose t _ (false, t)
        (update_first-Uncounted solver frame.width frame.blobs t) (refl, refl)
  update-Uncounted false solver frame t =
      if-Uncounted (three_finite o frame.blobs) t _ (false, t)
        (update_solved-Uncounted (solver.process_blobs frame.blobs t.recenter) t) (refl, refl)

  note_model-Uncounted : (b : Bool) (t : Tracking F) → Uncounted t (b, note_model o b t)
  unfolding note_model
  note_model-Uncounted true t = (refl, refl)
  note_model-Uncounted false t = (refl, refl)

  -- A frame and the counter: `counter` and `awaits` before it.
  pub record Counts (counter : ℕ) (awaits : Bool) (r : Bool × Tracking F) : Type 0 where
    pub counted : r.1.counter_d ≡ (if r.0 then u32 (counter + 1) else counter)
    pub not_first : r.0 ≡ true → awaits ≡ false
    pub awaited : awaits ≡ false → r.1.init_recenter ≡ false
    pub centred : awaits ≡ true → r.1.init_recenter ≡ false → r.1.recenter ≡ true

  count_frame-Counts :
      (t : Tracking F) (r : Bool × Tracking F)
      → t.counter_d < 2 ^ 32
      → Uncounted t r
      → Counts t.counter_d t.init_recenter (count_frame o r)
  unfolding count_frame
  count_frame-Counts t (false, u) small k = record {
    counted = k.0;
    not_first = λ e. cc;
    awaited = λ e. k.1 ∙ e;
    centred = λ e e'. cc;
  }
  count_frame-Counts t (true, u) small k = elim (Bool-cases u.init_recenter) [
    | inl e ↦ rw e (record {
      counted = omega (arith, small, k.0);
      not_first = λ x. cc;
      awaited = λ x. refl;
      centred = λ x y. refl;
    })
    | inr e ↦ rw e (record {
      counted = ap (λ c. u32 (c + 1)) k.0;
      not_first = λ x. sym k.1 ∙ e;
      awaited = λ x. refl;
      centred = λ x y. cc;
    })
  ]

  -- A frame with ten blobs at most is counted exactly where `ltr_int_update_pose` returns 0. As long as
  -- the first valid frame is awaited no frame is counted, and the frame that ends this asks for the
  -- view to be centred by the next one.
  pub update_pose-Counts :
      (solver : Solver F) (frame : TrackedFrame F) (t : Tracking F)
      → length (upright o solver t frame) ≤ 10
      → t.counter_d < 2 ^ 32
      → Returns (Counts t.counter_d t.init_recenter) (update_pose o solver frame t)
  unfolding update_pose take_blobs upright
  update_pose-Counts solver frame t few small =
      let bs = upright o solver t frame in
      let k = note_model-Uncounted solver.model_changed t in
      rw
        (
          note_model-orientation o solver.model_changed t,
          write_blobs-flat o bs (replicate 30 zero') (omega (arith, length-flat o bs)),
        )
        (taken solver.is_single_point _ _ k)
    where
      taken :
          (single : Bool) (f : TrackedFrame F) (u : Tracking F)
          → (u.counter_d ≡ t.counter_d) × (u.init_recenter ≡ t.init_recenter)
          → Counts t.counter_d t.init_recenter
              (count_frame o ((if single then update_pose_1pt o else update_pose_3pt o) solver f u))
      taken single f u e =
          let r = (if single then update_pose_1pt o else update_pose_3pt o) solver f u in
          let k = update-Uncounted single solver f u in
          count_frame-Counts t r small (k.0 ∙ e.0, k.1 ∙ e.1)
