-- ===== src/Image.antt =====
-- src/image_process.c
pub mod Tracker
pub mod Add
pub mod Draw
pub mod Scan
pub mod Blobs
pub mod Frame
