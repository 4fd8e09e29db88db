-- ===== src/Ltlib.antt =====
-- src/ltlib.c: the library that a client program links, and the memory that it shares with its slave
-- process.
pub mod Comm
pub mod Calls
pub mod Poses
pub mod Started
