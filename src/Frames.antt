-- ===== src/Frames.antt =====
-- src/ltlib_int.c and `ltr_get_frame` of src/ltlib.c: the pictures that the tracking process shares
-- with its clients through the file frames.dat, which `ltr_int_mmap_file` and `ltr_int_unmap_file` of
-- src/ipc_utils.c map.
pub mod Files
pub mod Publish
pub mod Client
pub mod Ready
pub mod Latest
pub mod Sequence
pub mod Drawing
pub mod Steps
pub mod Reads
pub mod Cleared
pub mod Remap
pub mod Frozen
