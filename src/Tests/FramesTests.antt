-- ===== src/Tests/FramesTests.antt =====
-- The shared pictures at concrete sizes.
use linux_track.Prelude.{
  ℕ, ◌+◌, ◌≡◌, ◌≢◌, refl, false, some, List, [], ◌∷◌, ◌==◌, if◌then◌else◌, arith,
}
use linux_track.Prelude.Exec.{ok, Returns}
use linux_track.Frames.Files.{
  Content, Files, Mapping, Mmap, mapped, unmapped, map_failed, open_fails, maps_at, empty_file,
}
use linux_track.Frames.Publish.{null, address, supplied, Frame, Server, publish_frame}
use linux_track.Frames.Client.{GetFrame, get_frame}
use linux_track.Frames.Ready.{Shares, drawn}
use linux_track.Frames.Latest.{Ready}
use linux_track.Frames.Sequence.{
  draw, publish, Event, pictures_after, Session, session_after, Holds,
}
use linux_track.Frames.Reads.{first_time, Copies, get_frame-latest}
use linux_track.Frames.Cleared.{blank}
use linux_track.Frames.Remap.{Shared, publish_frame-Shared}
use linux_track.Frames.Frozen.{get_frame-lost}
use linux_track.Ltlib.Comm.{LtrComm, Pose, AbsPose, running, nop_cmd}

abbrev pub pose_2_1 : Pose ℕ
pose_2_1 = record {
  pitch = 0;
  yaw = 0;
  roll = 0;
  tx = 0;
  ty = 0;
  tz = 0;
  counter = 1;
  resolution_x = 2;
  resolution_y = 1;
  raw_pitch = 0;
  raw_yaw = 0;
  raw_roll = 0;
  raw_tx = 0;
  raw_ty = 0;
  raw_tz = 0;
  status = running;
}

abbrev pub abs_pose_0 : AbsPose ℕ
abs_pose_0 = record { abs_pitch = 0; abs_yaw = 0; abs_roll = 0; abs_tx = 0; abs_ty = 0; abs_tz = 0 }

abbrev pub com_2_1 : LtrComm ℕ
com_2_1 = record {
  cmd = nop_cmd;
  recenter = false;
  notify = false;
  state = running;
  full_pose = record { pose = pose_2_1; abs_pose = abs_pose_0; blobs = 0; blob_list = [] };
  preparing_start = false;
}

abbrev file_2_1 : Content
file_2_1 = record { size = 18; flag = 0; w = 2; h = 1; pixels = λ p. 0 }

abbrev files_2_1 : Files
files_2_1 = record { node = λ j. if 0 == j then file_2_1 else empty_file; named = some 0; made = 1 }

abbrev view_2_1 : Mapping
view_2_1 = record { file = 0; base = 100; size = 18 }

abbrev server_2_1 : Server
server_2_1 = record { mmap = mapped view_2_1; current_w = 2; current_h = 1 }

abbrev frame_2_1 : Frame
frame_2_1 = record { width = 2; height = 1; bitmap = address 114 }

Shares-2_1 : Shares view_2_1 2 file_2_1
Shares-2_1 = record { flag = omega arith; mapping_size = refl; file_size = refl }

Ready-2_1 : Ready view_2_1 frame_2_1 server_2_1 files_2_1
Ready-2_1 = record {
  mapping = refl;
  same_size = (refl, refl);
  header = (refl, refl);
  shares = Shares-2_1;
  drawable = drawn refl;
}

Holds-2_1 : Holds view_2_1 2 1 (some 0) blank (frame_2_1, server_2_1, files_2_1)
Holds-2_1 = record {
  ready = Ready-2_1;
  size = (refl, refl);
  named = refl;
  bitmap = refl;
  drawing = λ p h. refl;
  showing = λ p h. refl;
}

abbrev two_frames : List Event
two_frames = draw 1 7 ∷ publish ∷ draw 0 5 ∷ []

get_frame-latest_example :
    Returns
      (λ (later : Session).
        Returns
          (Copies 2 1 (pictures_after two_frames blank).showing)
          (get_frame (maps_at 500) com_2_1 4 unmapped later.2))
      (session_after open_fails view_2_1 two_frames (frame_2_1, server_2_1, files_2_1))
get_frame-latest_example =
    get_frame-latest com_2_1 view_2_1 2 1 4 open_fails (maps_at 500) unmapped two_frames blank
      (frame_2_1, server_2_1, files_2_1)
      (record { good = refl; resolution = (refl, refl); room = omega arith; small = omega arith })
      (omega arith) Holds-2_1 (first_time 500)

abbrev lent_2_1 : Frame
lent_2_1 = record { width = 2; height = 1; bitmap = supplied (λ p. p + 3) }

abbrev started : Server
started = record { mmap = unmapped; current_w = 0; current_h = 0 }

abbrev first_frame : Frame
first_frame = record { width = 2; height = 1; bitmap = null }

not_failed : unmapped ≢ map_failed
not_failed e = cc

publish_frame-Shared_example :
    Returns (Shared 100 2 1 blank) (publish_frame (maps_at 100) first_frame started files_2_1)
publish_frame-Shared_example =
    publish_frame-Shared 100 first_frame started files_2_1 not_failed refl (omega arith)
      (omega arith)

abbrev old_view : Mapping
old_view = record { file = 5; base = 200; size = 1 }

get_frame-lost_example :
    Returns
      (λ (first : GetFrame × Mmap × Files).
        (first.0.required ≡ some (0, 0))
        × Returns
            (λ (later : Session).
              get_frame open_fails com_2_1 4 first.1 later.2 ≡ ok (first.0, first.1, later.2))
            (session_after open_fails view_2_1 two_frames (frame_2_1, server_2_1, first.2)))
      (get_frame (maps_at 500) com_2_1 4 (mapped old_view) files_2_1)
get_frame-lost_example =
    get_frame-lost com_2_1 view_2_1 2 1 4 open_fails open_fails 500 old_view two_frames (some 0)
      blank (frame_2_1, server_2_1, files_2_1) refl (refl, refl) (omega arith) (omega arith)
      Holds-2_1 (λ e. omega arith)
