-- ===== src/Frames/Publish.antt =====
-- src/ltlib_int.c: the tracking process puts the picture of each frame into frames.dat, which holds
-- three buffers; the flag is the number of the one to read.
use linux_track.Prelude.{ℕ, ◌+◌, ◌-◌, ◌*◌, ◌%◌, ◌^◌, ◌&&◌, ltb, leb, ◌==◌, if◌then◌else◌, u32}
use linux_track.Prelude.Exec.{Exec, ok, fault, ◌>>=◌}
use linux_track.Frames.Files.{
  Content, Files, Mapping, Mmap, unmapped, mapped, Answer, extra_data, mmap_file, unmap_file, put,
  fits, fill,
}

-- `frame->bitmap`: NULL, an address in the range of the mappings, or memory of another part of the
-- program, which supplies a picture there.
pub data Bitmap : Type 0 where
  null : Bitmap
  address : ℕ → Bitmap
  supplied : (ℕ → ℕ) → Bitmap

-- What `struct frame_type` says of the picture.
pub record Frame : Type 0 where
  pub width : ℕ
  pub height : ℕ
  pub bitmap : Bitmap

-- The static variables of src/ltlib_int.c.
pub record Server : Type 0 where
  pub mmap : Mmap
  pub current_w : ℕ
  pub current_h : ℕ

-- `FRAME_BUFFERS`
abbrev pub frame_buffers : ℕ
frame_buffers = 3

abbrev pub inc_frame_index : ℕ → ℕ
inc_frame_index current = (current + 1) % frame_buffers

-- `width * height` as `unsigned int`.
abbrev pub frame_size : ℕ → ℕ → ℕ
frame_size width height = u32 (width * height)

abbrev pub data_size : ℕ → ℕ → ℕ
data_size width height = u32 (frame_buffers * width * height + extra_data)

-- The address of the buffer with the number `i`.
abbrev pub buffer : Mapping → ℕ → ℕ → ℕ
buffer m n i = m.base + extra_data + i * n

-- `memset` of a buffer to 0.
unfoldable pub clear : Mapping → ℕ → ℕ → Content → Exec Content
clear m n i c = if fits m c (i * n) n then ok (fill (i * n) n (λ p. 0) c) else fault

-- The bytes that `memcpy` reads at an address: a fault outside of the mapping.
unfoldable pub read_mapped : Mapping → Content → ℕ → ℕ → Exec (ℕ → ℕ)
read_mapped m c a n =
    let o = a - (m.base + extra_data) in
    if leb (m.base + extra_data) a && fits m c o n then ok (λ p. c.pixels (o + p)) else fault

-- `memcpy` of a picture into a buffer.
unfoldable pub copy_into : Mapping → ℕ → ℕ → (ℕ → ℕ) → Content → Exec Content
copy_into m n i f c = if fits m c (i * n) n then ok (fill (i * n) n f c) else fault

abbrev pub with_flag : ℕ → Content → Content
with_flag i c = record c { flag = i }

-- The three branches: the picture was drawn into the current buffer, there is no picture yet, or
-- another part of the program supplies it.
unfoldable pub share_bitmap : Mapping → ℕ → Bitmap → Content → Exec (Bitmap × Content)
share_bitmap m n null c = do
  c₁ ← clear m n 0 (with_flag 0 c)
  c₂ ← clear m n 1 c₁
  ok (address (buffer m n 1), c₂)
share_bitmap m n (supplied f) c = do
  c₁ ← copy_into m n (inc_frame_index c.flag) f c
  ok (supplied f, with_flag (inc_frame_index c.flag) c₁)
share_bitmap m n (address a) c =
    let current = inc_frame_index c.flag in
    let next = inc_frame_index current in
    if a == buffer m n current
    then (do c₁ ← clear m n next (with_flag current c); ok (address (buffer m n next), c₁))
    else (do
      f ← read_mapped m c a n
      c₁ ← copy_into m n current f c
      ok (address a, with_flag current c₁))

-- The end of `publish_frame`, from the declaration of `data` on, at `mmap.data`.
unfoldable pub share_at : Mmap → Frame → Server → Files → Exec (Frame × Server × Files)
share_at (mapped m) frame s fs =
    let c = fs.node m.file in
    if leb extra_data m.size && leb extra_data c.size
    then (do
      shared ←
          share_bitmap m (frame_size frame.width frame.height) frame.bitmap
            (record c { w = frame.width; h = frame.height })
      ok (record frame { bitmap = shared.0 }, s, put m.file shared.1 fs))
    else fault
share_at _ frame s fs = fault

abbrev pub share : Frame → Server → Files → Exec (Frame × Server × Files)
share frame s fs = share_at s.mmap frame s fs

-- `*(uint8_t*)mmap.data = 0` after the new size is noted: the low byte of the flag.
unfoldable pub clear_flag : Mmap → Files → Exec Files
clear_flag (mapped m) fs =
    let c = fs.node m.file in
    if leb 1 m.size && leb 1 c.size
    then ok (put m.file (with_flag (c.flag - c.flag % 2 ^ 8) c) fs)
    else fault
clear_flag _ fs = fault

unfoldable pub note_size : Frame → Server → Server
note_size frame s = record s { current_w = frame.width; current_h = frame.height }

-- The body of the guard on a changed size once the file is mapped, and the rest.
unfoldable pub share_resized : Frame → Server → Files → Exec (Frame × Server × Files)
share_resized frame s fs = do
  let s' = note_size frame s
  fs₁ ← clear_flag s'.mmap fs
  share frame s' fs₁

-- Mapping the file anew for a larger frame; where this fails the frame is not published.
unfoldable pub remap : Answer → Frame → Server → Files → Exec (Frame × Server × Files)
remap answer frame s fs = do
  fs₁ ← unmap_file s.mmap fs
  let made = mmap_file answer (data_size frame.width frame.height) (unmapped) fs₁
  if made.0
      then share_resized frame (record s { mmap = made.1 }) made.2
      else ok (frame, record s { mmap = made.1 }, made.2)

unfoldable pub publish_frame : Answer → Frame → Server → Files → Exec (Frame × Server × Files)
publish_frame answer frame s fs =
    if (frame.width == s.current_w) && (frame.height == s.current_h)
    then share frame s fs
    else if ltb (frame_size s.current_w s.current_h) (frame_size frame.width frame.height)
    then remap answer frame s fs
    else share_resized frame s fs
