-- ===== src/Lib.antt =====
-- Linuxtrack: head tracking for Linux and Mac, from the camera's packets to the pose of the head.
--
-- A camera driver turns what the device sends into stripes, horizontal runs of lit pixels. The image
-- processing gathers stripes that touch into blobs, and the blobs of a frame go to the tracking, in the
-- same process or through memory shared with a server for webcams and the Wiimote. One thread runs the device;
-- other threads pause it, wake it up and shut it down by requests. The tracking turns the blobs into a
-- pose, which the master process sends to the slave process of each client; the slave puts the values on
-- the curves and through the filters of the client's axes and into memory that it shares with the
-- client, whose requests it takes from there. The pictures of the camera go to the clients through the
-- file frames.dat. Lists of preferences and devices are linked lists, and a tool takes the TrackIR
-- firmware and the list of games out of other files.
--
-- Files
-- - Prelude: tests, lists, words, bits, integers, runs with faults (`Exec`), objects on the heap
--   (`Cells`) and the floating-point operations (`Float`), of which nothing is assumed.
-- - Stripe: `stripe_t` of src/image_process.h.
-- - Tir (src/tir_img.c): Decode reads the bytes of one stripe (`process_stripe_*`), Packet one packet
--   (Sn4 for the SmartNav 4, Tir4 for the TrackIR 2 and 4, `process_packet_*`), Stream the packets of a
--   buffer (`process_packet`) and the transfers (`ltr_int_read_blobs_tir`). The static variables of
--   `process_packet` are the record `Parser`.
-- - Hw (src/tir_hw.c): the packets to a camera and its answers. State has the static variables, with the
--   packets sent as a log, and a monad over them; Packets the single packets; Firmware the file and
--   its upload; Status the requests for the device's status; Camera, Init and Open start, stop,
--   initialise, open and close each kind of camera.
-- - Image (src/image_process.c): Tracker is the state behind `ltr_int_add_stripe`, with the preblobs as
--   objects on the heap that the ranges of two lines share; `store_preblobs` and `merge_preblobs` free
--   and redirect them; Draw has the marks drawn into the picture, and Add is `ltr_int_add_stripe` with
--   both. Scan is the way from a bitmap to stripes (`ltr_int_to_stripes`), which reads the bitmap that
--   it draws into, Blobs the end of a frame (`ltr_int_stripes_to_blobs`), Frame the stripes and the end
--   of a frame together.
-- - DoublyLinked (src/list.c): the elements on the heap; Links says which heaps hold a list, and Add,
--   Walk, Relink and Delete are about the operations.
-- - Comm (src/com_proc.c): the shared memory, with its lock as a flag.
-- - Cal (src/cal.c): the requests and the state. Cal/Runloop (src/runloop.c) is one round of the
--   tracking thread; its Steps interleaves rounds with the requests of other threads.
-- - Hashing (src/hashing.c): the rolling checksum and the digests of the firmware extractor.
-- - Axes (src/axis.c, src/spline.c): the settings of the six axes in memory and in the preferences, whose
--   operations are an interface (`AxisOps`, its laws `PrefLaws`); Open reads them, Curve puts a value on
--   an axis.
-- - MathUtils (src/math_utils.c): vectors, rotations and the filter, over `MathOps`.
-- - Tracking (src/tracking.c): State has the static variables, Update a frame (`ltr_int_update_pose`),
--   GetPose what the master process is given, Postprocess the curves and filters. The solver of
--   src/pose.c is an interface (`Solver`). Blobs, Taken and Given follow the blobs, Counted the counter.
-- - Ltlib (src/ltlib.c): Comm is the memory shared with the slave, Calls the requests, Poses the reading
--   of poses. Started is about a slave that cannot be started.
-- - Slave (src/ltr_srv_slave.c, src/ltr_srv_comm.c): Mailbox is the main loop, Messages the treatment of a
--   message; Delivery and Settled are about the first, Finite, Shown and Inverted about the second.
-- - Frames (src/ltlib_int.c, `ltr_get_frame` of src/ltlib.c, and the mapping of files of
--   src/ipc_utils.c): Files, Publish and Client are the code; Ready and Latest say what holds between
--   frames of one size, Sequence, Drawing and Steps interleave drawing and publishing, Reads adds the
--   client, Cleared and Remap the first frame, Frozen a client that loses the file.
-- - Journey: a frame's blobs through all of these to the client.
-- - GameData (src/game_data.c): the cipher of the game list.
-- - Tests: runs at concrete inputs.
--
-- How the code is modelled
-- - Numbers are natural; a word of the code wraps at its width where the code can make it wrap.
-- - A read or write outside of an array or of a live object is `fault`, the value of the whole run.
-- - Loops over the bytes of a buffer and over requests run on fuel. Termination says how much is enough for
--   `process_packet`: one round for each byte left and one more. `ltr_int_free_list` needs one round more
--   than the list has elements, the upload of firmware one round for each byte and one more. Loops that
--   wait for the device end only if it answers; their fuel is an argument, and Hw/Status/Reload and
--   Hw/Init/Ready say which answers end them. Counted loops carry the rounds left.
-- - What the USB device, the driver's functions and the callbacks answer is an argument. A device's
--   calls in the run loop are recorded as actions.
-- - A request of another thread and a round of the loop are single steps, so interleavings within
--   `ltr_int_get_state_request` are left out. So are a round of the slave's loop with the client's calls
--   before it, the treatment of a message, the publishing of a picture and its reading by a client.
-- - The three words at the start of frames.dat are fields of the file, its other bytes a function of
--   their place; files that lost their name are kept, as a mapping keeps them.
-- - `ltr_int_fifo_send` is the list of its outcomes in a round; the loop that repeats it runs on this list.
--
-- Not modelled: the solver (src/pose.c), which is floating-point numerics, and the master process
-- (src/ltr_srv_master.cpp), in C++; how the slave starts the master and opens its pipes; the search for
-- the firmware's file and the events of the SmartNav's buttons (src/tir_hw.c); the sections of a profile
-- and the table of defaults (src/axis.c); the drivers around the libraries for USB, video and the
-- Wiimote; the preferences and the interfaces in C++; sockets, processes and other files as such
-- (src/utils.c, src/ipc_utils.c, src/netcomm.c).
pub mod Prelude
pub mod Stripe
pub mod Tir
pub mod Image
pub mod Comm
pub mod Cal
mod Tests
pub mod DoublyLinked
pub mod Hashing
pub mod GameData
pub mod Hw
pub mod Ltlib
pub mod MathUtils
pub mod Slave
pub mod Tracking
pub mod Journey
pub mod Frames
pub mod Axes
