-- ===== src/Ltlib/Comm.antt =====
-- `struct ltr_comm` of src/ltlib.h, which a client and its slave process share, and the types of
-- src/linuxtrack.h that it holds.
use linux_track.Prelude.{ℕ, Bool, true, false, List}

-- `linuxtrack_state_type`
pub data TrackingState : Type 0 where
  linuxtrack_ok initializing running paused stopped : TrackingState
  not_initialized symbol_lookup no_config not_found processing_frame : TrackingState

-- `state >= LINUXTRACK_OK`
abbrev pub is_good : TrackingState → Bool
is_good not_initialized = false
is_good symbol_lookup = false
is_good no_config = false
is_good not_found = false
is_good processing_frame = false
is_good _ = true

-- `ltr_cmd`
pub data LtrCmd : Type 0 where
  run_cmd pause_cmd stop_cmd frames_cmd nop_cmd : LtrCmd

-- `cmd != NOP_CMD`
abbrev pub is_command : LtrCmd → Bool
is_command nop_cmd = false
is_command _ = true

-- `linuxtrack_pose_t`, over the floating-point type.
pub record Pose (F : Type 0) : Type 0 where
  pub pitch : F
  pub yaw : F
  pub roll : F
  pub tx : F
  pub ty : F
  pub tz : F
  pub counter : ℕ
  pub resolution_x : ℕ
  pub resolution_y : ℕ
  pub raw_pitch : F
  pub raw_yaw : F
  pub raw_roll : F
  pub raw_tx : F
  pub raw_ty : F
  pub raw_tz : F
  pub status : TrackingState

-- `linuxtrack_abs_pose_t`
pub record AbsPose (F : Type 0) : Type 0 where
  pub abs_pitch : F
  pub abs_yaw : F
  pub abs_roll : F
  pub abs_tx : F
  pub abs_ty : F
  pub abs_tz : F

-- `linuxtrack_full_pose_t`
pub record FullPose (F : Type 0) : Type 0 where
  pub pose : Pose F
  pub abs_pose : AbsPose F
  pub blobs : ℕ
  pub blob_list : List F

pub record LtrComm (F : Type 0) : Type 0 where
  pub cmd : LtrCmd
  pub recenter : Bool
  pub notify : Bool
  pub state : TrackingState
  pub full_pose : FullPose F
  pub preparing_start : Bool
