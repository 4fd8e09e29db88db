-- ===== src/Frames/Remap.antt =====
-- Frames.dat mapped anew: by the tracking process for its first or a larger frame, and by a client.
use linux_track.Prelude.{
  ℕ, ◌+◌, ◌*◌, ◌^◌, ◌≡◌, ◌≢◌, ◌<◌, refl, Bool, true, false, ◌&&◌, Option, none, some, ◌==◌, lt→ltb,
  Bool-cases, ◌⊎◌, inl, inr, arith, ap₂, ◌∙◌,
}
use linux_track.Prelude.Exec.{ok, Returns, Returns-mono}
use linux_track.Frames.Files.{
  Files, Mapping, Mmap, mapped, unmapped, map_failed, maps_at, extra_data, open_file, open_at,
  set_length, ftruncate, mmap_file, unmap_file,
}
use linux_track.Frames.Publish.{
  null, Frame, Server, frame_size, publish_frame, remap, share_resized,
}
use linux_track.Frames.Ready.{data_size_lem}
use linux_track.Frames.Sequence.{Pictures, Session, Holds}
use linux_track.Frames.Cleared.{blank, resized-Holds}

-- The file that was mapped has the name and the size.
pub record MapsFile (base size : ℕ) (answer : Bool × Mmap × Files) : Type 0 where
  pub file : ℕ
  pub result : answer.0 ≡ true
  pub mapping : answer.1 ≡ mapped (record { file = file; base = base; size = size })
  pub named : answer.2.named ≡ some file
  pub file_size : (answer.2.node file).size ≡ size

opened_named :
    (o : Option ℕ) (fs : Files) → fs.named ≡ o → (open_at o fs).1.named ≡ some (open_at o fs).0
unfolding open_at
opened_named none fs e = refl
opened_named (some i) fs e = e

set_length-size : (size i : ℕ) (fs : Files) → ((set_length size i fs).node i).size ≡ size
unfolding set_length ftruncate
set_length-size size i fs = ground arith

set_length-named : (size i : ℕ) (fs : Files) → (set_length size i fs).named ≡ fs.named
unfolding set_length
set_length-named size i fs = ground arith

mmap_file-MapsFile :
    (base size : ℕ) (fs : Files)
    → size < 2 ^ 31
    → MapsFile base size (mmap_file (maps_at base) size unmapped fs)
unfolding mmap_file
mmap_file-MapsFile base size fs small = rw (lt→ltb size (2 ^ 31) small) (record {
  file = (open_file fs).0;
  result = refl;
  mapping = refl;
  named = set_length-named size (open_file fs).0 (open_file fs).1 ∙ opened_named fs.named fs refl;
  file_size = set_length-size size (open_file fs).0 (open_file fs).1;
})

-- The three buffers of the mapping at `base` hold the two pictures.
pub record Shared (base w h : ℕ) (k : Pictures) (now : Session) : Type 0 where
  pub file : ℕ
  pub holds :
      Holds
        (record { file = file; base = base; size = extra_data + 3 * frame_size w h })
        w
        h
        (some file)
        k
        now

unmap_file-ok :
    (m : Mmap) (fs : Files) → m ≢ map_failed → (fs₁ : Files) × (unmap_file m fs ≡ ok fs₁)
unfolding unmap_file
unmap_file-ok unmapped fs works = (fs, refl)
unmap_file-ok map_failed fs works = absurd (works refl)
unmap_file-ok (mapped m) fs works = (record fs { named = none }, refl)

larger_differs : (a b c d : ℕ) → frame_size c d < frame_size a b → ((a == c) && (b == d)) ≡ false
larger_differs a b c d larger = from (Bool-cases ((a == c) && (b == d)))
  where
    from :
        (((a == c) && (b == d)) ≡ true) ⊎ (((a == c) && (b == d)) ≡ false)
        → ((a == c) && (b == d)) ≡ false
    from (inr e) = e
    from (inl e) =
        let first : a ≡ c = ground arith in
        let second : b ≡ d = ground arith in absurd (omega (arith, ap₂ frame_size first second))

module _ (base : ℕ) (frame : Frame) (s : Server) where
  mapped-Shared :
      frame.bitmap ≡ null
      → (answer : Bool × Mmap × Files)
      → MapsFile base (extra_data + 3 * frame_size frame.width frame.height) answer
      → Returns
          (Shared base frame.width frame.height blank)
          (share_resized frame (record s { mmap = answer.1 }) answer.2)
  mapped-Shared empty answer r =
      let m : Mapping = record {
        file = r.file;
        base = base;
        size = extra_data + 3 * frame_size frame.width frame.height;
      } in
      Returns-mono (Holds m frame.width frame.height (some m.file) blank)
        (Shared base frame.width frame.height blank)
        (share_resized frame (record s { mmap = answer.1 }) answer.2)
        (resized-Holds m frame (record s { mmap = answer.1 }) answer.2 r.mapping empty
          (record { mapping_size = refl; file_size = r.file_size; named = r.named }))
        (λ now k. record { file = r.file; holds = k })

  remap-Shared :
      (fs : Files)
      → s.mmap ≢ map_failed
      → frame.bitmap ≡ null
      → 3 * frame.width * frame.height + extra_data < 2 ^ 31
      → Returns (Shared base frame.width frame.height blank) (remap (maps_at base) frame s fs)
  unfolding remap
  remap-Shared fs works empty small =
      let size = extra_data + 3 * frame_size frame.width frame.height in
      let gone = unmap_file-ok s.mmap fs works in
      let r = mmap_file-MapsFile base size gone.0 (omega (arith, small)) in
      rw (gone.1, data_size_lem frame.width frame.height small, r.result)
        (mapped-Shared empty (mmap_file (maps_at base) size unmapped gone.0) r)

  -- A frame without a bitmap that is larger than the last one, the first frame of a process
  -- included, is published where mapping the file did not fail before and is answered by an
  -- address, and where the file is smaller than 2^31 bytes: it then has three buffers of the
  -- frame's size, two of them cleared, and the frame is to be drawn into the buffer after the one
  -- that is shown.
  pub publish_frame-Shared :
      (fs : Files)
      → s.mmap ≢ map_failed
      → frame.bitmap ≡ null
      → 3 * frame.width * frame.height + extra_data < 2 ^ 31
      → frame_size s.current_w s.current_h < frame_size frame.width frame.height
      → Returns
          (Shared base frame.width frame.height blank)
          (publish_frame (maps_at base) frame s fs)
  unfolding publish_frame
  publish_frame-Shared fs works empty small larger =
      let other : ((frame.width == s.current_w) && (frame.height == s.current_h)) ≡ false =
        larger_differs frame.width frame.height s.current_w s.current_h larger in
      rw
        (
          other,
          lt→ltb (frame_size s.current_w s.current_h) (frame_size frame.width frame.height) larger,
        )
        (remap-Shared fs works empty small)
