-- ===== src/Hw.antt =====
-- src/tir_hw.c: the protocol of the TrackIR and SmartNav cameras over USB.
pub mod State
pub mod Packets
pub mod Firmware
pub mod Status
pub mod Camera
pub mod Init
pub mod Open
