-- ===== src/Journey.antt =====
-- From a frame to the client: src/tracking.c, src/ltr_srv_comm.c, src/ltr_srv_slave.c and src/ltlib.c, one after the
-- other. The master process passes on what `ltr_int_tracking_get_pose` gives it.
use linux_track.Prelude.{ℕ, ◌*◌, ◌≤◌, ◌≡◌, refl, Bool, true, false, List, length, arith, ◌∙◌}
use linux_track.Prelude.Exec.{ok, Returns, Returns-bind, Returns-mono}
use linux_track.Comm.{Blob}
use linux_track.Ltlib.Comm.{Pose, FullPose, LtrComm, is_good, running}
use linux_track.Ltlib.Calls.{Client, detached}
use linux_track.Ltlib.Poses.{get_pose_full}
use linux_track.Tracking.State.{Orientation, Tracking, TrackOps, Solver}
use linux_track.Tracking.Update.{TrackedFrame, update_pose}
use linux_track.Tracking.GetPose.{tracking_get_pose}
use linux_track.Tracking.Blobs.{HasBlobs, upright}
use linux_track.Tracking.Taken.{Took, update_pose-Took}
use linux_track.Tracking.Given.{
  Passes, GivenBlobs, tracking_get_pose-Passes, get_pose_full-GivenBlobs,
}
use linux_track.Tracking.Postprocess.{Processed, postprocess_axes}
use linux_track.Slave.Messages.{
  Reader, send_data, received, show_pose, process_pose, process_message,
}
use linux_track.Slave.Finite.{FiniteFilters, StaysFinite, postprocess_axes-finite}

module _ (o : TrackOps) where
  open o use {maths}
  open maths use {axis}
  open axis use {F, zero'}

  -- The shared memory shows these blobs.
  record Shows (bs : List (Blob F)) (s : Reader maths) : Type 0 where
    blobs : HasBlobs o bs s.memory.full_pose
    good : is_good s.memory.state ≡ true

  shown :
      (bs : List (Blob F)) (p : FullPose F) (done : Processed maths) (m : LtrComm F)
      → HasBlobs o bs p
      → done.pose.status ≡ running
      → HasBlobs o bs (show_pose maths (record p { pose = done.pose }) m).full_pose
        × (is_good (show_pose maths (record p { pose = done.pose }) m).state ≡ true)
  unfolding show_pose
  shown bs p done m r e =
      rw e (record { number = r.number; rest = r.rest; values = r.values }, refl)

  process_message-Shows :
      (bs : List (Blob F)) (p : FullPose F) (s : Reader maths)
      → FiniteFilters maths s.filtered
      → HasBlobs o bs p
      → p.pose.status ≡ running
      → Returns (λ r. Shows bs r.1) (process_message maths (received (send_data p)) s)
  unfolding process_message process_pose
  process_message-Shows bs p s finite r e =
      Returns-bind {A = Reader maths} {B = Bool × Reader maths} (Shows bs) (λ r. Shows bs r.1)
        (process_pose maths p s) (λ s₁. ok (true, s₁))
        (Returns-bind {A = Processed maths} {B = Reader maths} (StaysFinite maths p.pose) (Shows bs)
          (postprocess_axes maths s.prefs.tr_align p.pose s.filtered s.axes) _
          (postprocess_axes-finite maths s.prefs.tr_align p.pose s.filtered s.axes finite)
          (λ done k.
            let x = shown bs p done s.memory r (k.status ∙ e) in
            record { blobs = x.0; good = x.1 }))
        (λ s₁ k. k)

  -- Once the tracking is set up, the blobs of a frame, ten at most, reach a client: the tracking takes them, turned upright and
  -- sorted; the master process, which passes a status that the tracking runs, is given them; the slave,
  -- whose filters are finite, treats the message with them; and the client, which is attached to the
  -- shared memory and has room for `num_blobs`, is given the first `num_blobs` of them, or all where
  -- there are fewer.
  pub update_pose-get_pose_full :
      (solver : Solver F) (frame : TrackedFrame F) (t : Tracking F) (turned : Orientation)
      (checked : Bool) (pose : FullPose F) (s : Reader maths) (c : Client F) (mine : Pose F)
      (buf : List F) (num_blobs : ℕ)
      → length (upright o solver t frame) ≤ 10
      → t.tracking_initialized ≡ true
      → (pose.pose.status ≡ running) × (30 ≤ length pose.blob_list)
      → FiniteFilters maths s.filtered
      → detached c ≡ false
      → num_blobs * 3 ≤ length buf
      → Returns
          (λ (u : Bool × Tracking F).
            Returns
              (λ (g : FullPose F × Tracking F).
                Returns
                  (λ (r : Bool × Reader maths).
                    Returns
                      (GivenBlobs o (upright o solver t frame) num_blobs buf)
                      (get_pose_full zero' (record c { shared = r.1.memory }) mine buf num_blobs))
                  (process_message maths (received (send_data g.0)) s))
              (tracking_get_pose turned checked pose u.1))
          (update_pose o solver frame t)
  update_pose-get_pose_full solver frame t turned checked pose s c mine buf num_blobs few started
        passed finite attached room =
      let bs = upright o solver t frame in
      Returns-mono (Took o bs t.tracking_initialized) _ (update_pose o solver frame t)
        (update_pose-Took o solver frame t few)
        (λ u took.
          Returns-mono (Passes o bs pose u.1) _ (tracking_get_pose turned checked pose u.1)
            (tracking_get_pose-Passes o bs turned checked pose u.1 (took.initialized ∙ started)
              took.blobs (omega (arith, passed.1, few)))
            (λ g p.
              Returns-mono (λ r. Shows bs r.1) _
                (process_message maths (received (send_data g.0)) s)
                (process_message-Shows bs g.0 s finite p.blobs (p.status ∙ passed.0))
                (λ r k.
                  get_pose_full-GivenBlobs o bs (record c { shared = r.1.memory }) mine buf
                    num_blobs attached k.good k.blobs room)))
