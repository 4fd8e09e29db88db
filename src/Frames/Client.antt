-- ===== src/Frames/Client.antt =====
-- `ltr_get_frame` of src/ltlib.c: a client copies the picture that the tracking process put into
-- frames.dat last.
use linux_track.Prelude.{
  ℕ, ◌+◌, ◌*◌, Bool, true, ◌&&◌, ◌||◌, Option, none, some, ltb, leb, if◌then◌else◌,
}
use linux_track.Prelude.Exec.{Exec, ok, fault, ◌>>=◌}
use linux_track.Frames.Files.{
  Content, Files, Mmap, unmapped, map_failed, mapped, Answer, extra_data, mmap_file, unmap_file,
  fits,
}
use linux_track.Frames.Publish.{frame_size, data_size}
use linux_track.Ltlib.Comm.{LtrComm, is_good}

-- What the call leaves in `*req_width` and `*req_height`, `none` where it does not write them, and in
-- the caller's buffer, `none` where it returns 0.
pub record GetFrame : Type 0 where
  pub required : Option (ℕ × ℕ)
  pub copied : Option (ℕ → ℕ)

abbrev pub no_frame : GetFrame
no_frame = record { required = none; copied = none }

-- The bytes of the buffer with the number `flag`.
abbrev pub shown : Content → ℕ → ℕ
shown c p = c.pixels (c.flag * frame_size c.w c.h + p)

-- From the declaration of `data` on.
unfoldable pub read_frame : ℕ → ℕ → ℕ → Mmap → Files → Exec GetFrame
read_frame p_w p_h buf_size unmapped fs = ok no_frame
read_frame p_w p_h buf_size map_failed fs = fault
read_frame p_w p_h buf_size (mapped m) fs =
    let c = fs.node m.file in
    let n = frame_size c.w c.h in
    if leb extra_data m.size && leb extra_data c.size
    then (if ltb (frame_size p_w p_h) n || ltb buf_size n
        then ok (record { required = some (c.w, c.h); copied = none })
        else if fits m c (c.flag * n) n
        then ok (record { required = some (c.w, c.h); copied = some (shown c) })
        else fault)
    else fault

abbrev pub mapped_size : Mmap → ℕ
mapped_size (mapped m) = m.size
mapped_size _ = 0

-- The client maps the file anew where its mapping is smaller than the picture.
unfoldable pub map_picture : Answer → ℕ → ℕ → Mmap → Files → Exec (Bool × Mmap × Files)
map_picture answer p_w p_h m fs =
    if ltb (mapped_size m) (frame_size p_w p_h)
    then (do fs₁ ← unmap_file m fs; ok (mmap_file answer (data_size p_w p_h) unmapped fs₁))
    else ok (true, m, fs)

-- `ltr_get_frame` of a client that is initialized, with its `mmap` and the files.
unfoldable pub get_frame :
    {F : Type 0} → Answer → LtrComm F → ℕ → Mmap → Files → Exec (GetFrame × Mmap × Files)
get_frame answer tmp buf_size m fs =
    if is_good tmp.state
    then (do
      let p_w = tmp.full_pose.pose.resolution_x
      let p_h = tmp.full_pose.pose.resolution_y
      ready ← map_picture answer p_w p_h m fs
      if ready.0
          then (do
            result ← read_frame p_w p_h buf_size ready.1 ready.2
            ok (result, ready.1, ready.2))
          else ok (no_frame, ready.1, ready.2))
    else ok (no_frame, m, fs)
