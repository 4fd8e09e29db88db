-- ===== src/Tracking.antt =====
-- src/tracking.c: from the blobs of a frame to a pose.
pub mod State
pub mod Update
pub mod GetPose
pub mod Postprocess
pub mod Blobs
pub mod Taken
pub mod Given
pub mod Counted
