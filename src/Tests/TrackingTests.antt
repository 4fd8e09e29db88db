-- ===== src/Tests/TrackingTests.antt =====
-- A frame with blobs, its pose and the client, over whole numbers.
use linux_track.Prelude.{
  ltb, ℕ, ◌≡◌, ◌≤◌, refl, true, false, Bool, none, [], ◌∷◌, length, replicate, arith,
}
use linux_track.Prelude.Exec.{ok, Returns}
use linux_track.Axes.{yaw, pitch, axis_enabled, axis_inverted, get_axis_bool_param}
use linux_track.MathUtils.{MathOps, vec}
use linux_track.Ltlib.Comm.{FullPose}
use linux_track.Ltlib.Calls.{Client}
use linux_track.Ltlib.Poses.{get_pose, get_pose_full}
use linux_track.Tracking.State.{Orientation, Tracking, TrackOps, Solver}
use linux_track.Tracking.Update.{TrackedFrame, remove_camera_rotation, update_pose}
use linux_track.Tracking.GetPose.{tracking_get_pose}
use linux_track.Tracking.Blobs.{upright}
use linux_track.Tracking.Given.{GivenBlobs}
use linux_track.Tracking.Counted.{Counts, update_pose-Counts}
use linux_track.Tracking.Postprocess.{Filtered, Processed, postprocess_axes}
use linux_track.Slave.Messages.{
  Reader, received, pose_message, send_data, send_param_update, process_pose, process_message,
}
use linux_track.Slave.Finite.{FiniteVec, FiniteFilters, ReaderFinite, process_message-finite}
use linux_track.Slave.Shown.{answer_for, process_pose-get_pose}
use linux_track.Slave.Inverted.{process_message-bool_params}
use linux_track.Journey.{update_pose-get_pose_full}
use linux_track.Tests.AxesTests.{whole, opened}
use linux_track.Tests.FramesTests.{com_2_1, pose_2_1, abs_pose_0}

abbrev maths_of_whole : MathOps
maths_of_whole = record {
  axis = whole;
  sin = λ a. a;
  cos = λ a. a;
  asin = λ a. a;
  atan2 = λ a b. a;
  finite = λ a. true;
  one_eighty = 180;
  pi = 3;
  tiny = 0;
}

abbrev ops : TrackOps
ops = record { maths = maths_of_whole; of_uint = λ n. n; two_hundred = 200; cam_distance = 1000 }

abbrev straight : Orientation
straight = record { flip_x = false; flip_y = false; xchg_xy = true; from_behind = false }

abbrev empty_pose : FullPose ℕ
empty_pose = record {
  pose = pose_2_1;
  abs_pose = abs_pose_0;
  blobs = 0;
  blob_list = replicate 30 0;
}

abbrev unset : Tracking ℕ
unset = record {
  recenter = false;
  init_recenter = false;
  tracking_initialized = false;
  orientation = straight;
  behind = false;
  current_pose = empty_pose;
  counter_d = 5;
  c_x = 0;
  c_y = 0;
  c_z = 0;
}

abbrev set_up : Tracking ℕ
set_up = record unset { tracking_initialized = true; init_recenter = true }

abbrev solver : Solver ℕ
solver = record {
  model_changed = false;
  check_pose = true;
  is_single_point = true;
  is_face = false;
  sort_blobs = λ bs. bs;
  process_blobs = λ bs r. none;
}

abbrev two_blobs : TrackedFrame ℕ
two_blobs = record {
  width = 2;
  height = 1;
  blobs = record { x = 7; y = 8; score = 9 } ∷ (record { x = 4; y = 5; score = 6 } ∷ []);
}

few : length (upright ops solver set_up two_blobs) ≤ 10
unfolding upright remove_camera_rotation
few = omega arith

update_pose-Counts_example : Returns (Counts ops 5 true) (update_pose ops solver two_blobs set_up)
update_pose-Counts_example = update_pose-Counts ops solver two_blobs set_up few (omega arith)

abbrev nothing_filtered : Filtered ℕ
nothing_filtered = record { angles = vec 0 0 0; translations = vec 0 0 0 }

all_finite : FiniteVec maths_of_whole (vec 0 0 0)
unfolding FiniteVec
all_finite = refl

finite_filters : FiniteFilters maths_of_whole nothing_filtered
finite_filters = record { angles = all_finite; translations = all_finite }

abbrev reader : Reader maths_of_whole
reader = record {
  axes = opened;
  filtered = nothing_filtered;
  prefs = record { use_alter = false; tr_align = true; use_oldrot = false; focal_length = 1 };
  memory = com_2_1;
  notify = true;
  notify_pipe = true;
  notified = 0;
}

-- Whole numbers of which only those below 100 count as finite, and a pose with an angle of 500.
abbrev strict_maths : MathOps
strict_maths = record maths_of_whole { finite = λ a. ltb a 100 }

abbrev strict_reader : Reader strict_maths
strict_reader = record {
  axes = opened;
  filtered = nothing_filtered;
  prefs = reader.prefs;
  memory = com_2_1;
  notify = true;
  notify_pipe = true;
  notified = 0;
}

abbrev wild_pose : FullPose ℕ
wild_pose = record empty_pose { pose = record pose_2_1 { raw_pitch = 500 } }

strict_filters : FiniteFilters strict_maths nothing_filtered
unfolding FiniteVec
strict_filters = record { angles = refl; translations = refl }

process_message-finite_example :
    Returns
      (ReaderFinite strict_maths)
      (process_message strict_maths (received (pose_message wild_pose)) strict_reader)
process_message-finite_example =
    process_message-finite strict_maths (received (pose_message wild_pose)) strict_reader tt
      strict_filters

abbrev client : Client ℕ
client = record { initialized = true; mapped = true; shared = com_2_1; slaves = 1 }

process_pose-get_pose_example :
    Returns
      (λ (done : Processed maths_of_whole).
        Returns
          (λ (s' : Reader maths_of_whole).
            get_pose 0 (record client { shared = s'.memory }) 4
            ≡ answer_for maths_of_whole empty_pose done com_2_1.full_pose 4)
          (process_pose maths_of_whole empty_pose reader))
      (postprocess_axes maths_of_whole true pose_2_1 nothing_filtered opened)
process_pose-get_pose_example =
    process_pose-get_pose maths_of_whole empty_pose reader client 4 finite_filters refl

process_message-bool_params_example :
    Returns
      (λ r. (r.0 ≡ true) × (get_axis_bool_param whole yaw axis_enabled r.1.axes ≡ ok true))
      (process_message maths_of_whole (received (send_param_update 2 0 1)) reader)
    × Returns
        (λ r.
          (r.0 ≡ true)
          × (get_axis_bool_param whole pitch axis_inverted r.1.axes
              ≡ get_axis_bool_param whole pitch axis_inverted opened))
        (process_message maths_of_whole (received (send_param_update 2 8 1)) reader)
process_message-bool_params_example =
    process_message-bool_params maths_of_whole yaw pitch 1 reader (λ e. cc)

update_pose-get_pose_full_example :
    Returns
      (λ (u : Bool × Tracking ℕ).
        Returns
          (λ (g : FullPose ℕ × Tracking ℕ).
            Returns
              (λ (r : Bool × Reader maths_of_whole).
                Returns
                  (GivenBlobs ops (upright ops solver set_up two_blobs) 1 (0 ∷ (0 ∷ (0 ∷ []))))
                  (get_pose_full 0
                    (record client { shared = r.1.memory })
                    pose_2_1
                    (0 ∷ (0 ∷ (0 ∷ [])))
                    1))
              (process_message maths_of_whole (received (send_data g.0)) reader))
          (tracking_get_pose straight true empty_pose u.1))
      (update_pose ops solver two_blobs set_up)
update_pose-get_pose_full_example =
    update_pose-get_pose_full ops solver two_blobs set_up straight true empty_pose reader client
      pose_2_1 (0 ∷ (0 ∷ (0 ∷ []))) 1 few refl (refl, omega arith) finite_filters refl (omega arith)
