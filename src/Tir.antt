-- ===== src/Tir.antt =====
-- src/tir_img.c: from the USB packets of a camera to stripes.
pub mod Decode
pub mod Packet
pub mod Stream
