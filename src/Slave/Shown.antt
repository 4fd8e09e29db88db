-- ===== src/Slave/Shown.antt =====
-- What a client is given after the slave treated a pose.
use linux_track.Prelude.{
  ℕ, ◌≡◌, refl, false, Option, some, if◌then◌else◌, ◌&&◌, ◌+◌, Bool-cases, inl, inr,
}
use linux_track.Prelude.Exec.{Exec, ok, fault, out_of_fuel, ◌>>=◌, Returns}
use linux_track.MathUtils.{MathOps}
use linux_track.Ltlib.Comm.{FullPose, is_good, LtrComm}
use linux_track.Ltlib.Calls.{Client, detached}
use linux_track.Ltlib.Poses.{SixValues, new_data, no_values, values_of, get_pose}
use linux_track.Tracking.Postprocess.{Processed, postprocess_axes}
use linux_track.Slave.Messages.{Reader, is_running, show_pose, process_pose}
use linux_track.Slave.Finite.{FiniteFilters, StaysFinite, postprocess_axes-finite}

module _ (o : MathOps) where
  open o use {axis}
  open axis use {F, zero'}

  -- The answer to a client, from the pose, its processed values and the pose in the shared memory before.
  pub answer_for : FullPose F → Processed o → FullPose F → ℕ → ℕ × Option (SixValues F)
  answer_for p done old passed =
      let shown = if is_running p.pose.status then record p { pose = done.pose } else old in
      if is_good p.pose.status
      then (new_data zero' passed shown.pose.counter, some (values_of zero' shown))
      else (0, some (no_values zero'))

  answered :
      (p : FullPose F) (done : Processed o) (m : LtrComm F) (c : Client F) (passed : ℕ)
      → detached c ≡ false
      → done.pose.status ≡ p.pose.status
      → get_pose zero' (record c { shared = show_pose o (record p { pose = done.pose }) m }) passed
        ≡ answer_for p done m.full_pose passed
  unfolding get_pose show_pose answer_for
  answered p done m c passed e same = elim (Bool-cases (is_running p.pose.status)) [
    | inl x ↦ rw (same, e, x) refl
    | inr x ↦ rw (same, e, x) refl
  ]

  -- What a client, which is attached to the shared memory, is given by `ltr_get_pose` after the slave
  -- treated a pose, for filters that are finite: the values of the processed pose where the status of
  -- the pose is that the tracking runs, those of the pose that was shown before where the status is
  -- another good one, and zeros where it is an error; 1 exactly where there is a pose with another
  -- counter than the one that the client passed.
  pub process_pose-get_pose :
      (p : FullPose F) (s : Reader o) (c : Client F) (passed : ℕ)
      → FiniteFilters o s.filtered
      → detached c ≡ false
      → Returns
          (λ (done : Processed o).
            Returns
              (λ (s' : Reader o).
                get_pose zero' (record c { shared = s'.memory }) passed
                ≡ answer_for p done s.memory.full_pose passed)
              (process_pose o p s))
          (postprocess_axes o s.prefs.tr_align p.pose s.filtered s.axes)
  unfolding process_pose
  process_pose-get_pose p s c passed finite e =
      from (postprocess_axes o s.prefs.tr_align p.pose s.filtered s.axes)
        (postprocess_axes-finite o s.prefs.tr_align p.pose s.filtered s.axes finite)
    where
      from :
          (m : Exec (Processed o))
          → Returns (StaysFinite o p.pose) m
          → Returns {A = Processed o}
              (λ done.
                Returns {A = Reader o}
                  (λ s'.
                    get_pose zero' (record c { shared = s'.memory }) passed
                    ≡ answer_for p done s.memory.full_pose passed)
                  (m >>= (λ done. ok (record s {
                    axes = done.axes;
                    filtered = done.filtered;
                    memory = show_pose o (record p { pose = done.pose }) s.memory;
                    notified = if s.notify && s.notify_pipe then s.notified + 1 else s.notified;
                  }))))
              m
      from (ok done) k = answered p done s.memory c passed e k.status
      from fault k = elim k [ ]
      from out_of_fuel k = elim k [ ]
