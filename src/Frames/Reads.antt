-- ===== src/Frames/Reads.antt =====
-- What a client reads while the tracking process draws and publishes.
use linux_track.Prelude.{
  ℕ, ◌+◌, ◌*◌, ◌^◌, ◌≡◌, ◌<◌, ◌≤◌, refl, true, some, List, ==_refl, lt→ltb, le→not_ltb, arith, sym,
  ap, ap₂, subst, ◌∙◌,
}
use linux_track.Prelude.Exec.{ok, ◌>>=◌, Returns, Returns-mono}
use linux_track.Frames.Files.{
  Files, Mapping, Mmap, mapped, unmapped, Answer, maps_at, extra_data, open_file, open_at,
  set_length, mmap_file, unmap_file,
}
use linux_track.Frames.Publish.{frame_size}
use linux_track.Frames.Client.{shown, GetFrame, get_frame, read_frame, map_picture}
use linux_track.Frames.Ready.{data_size_lem}
use linux_track.Frames.Latest.{Attached, read_frame-shown}
use linux_track.Frames.Sequence.{Event, Pictures, pictures_after, Session, session_after, Holds}
use linux_track.Frames.Steps.{session_after-Holds}
use linux_track.Ltlib.Comm.{LtrComm, is_good}

-- The client mapped the file before, or has not mapped anything and the system will map it.
pub data CanRead (m : Mapping) (n : ℕ) : Answer → Mmap → Type 0 where
  attached :
      (answer : Answer) (view : Mapping) → Attached m n view → CanRead m n answer (mapped view)
  first_time : (base : ℕ) → CanRead m n (maps_at base) unmapped

-- The call returned 1, with this picture.
pub record Copies (w h : ℕ) (pic : ℕ → ℕ) (r : GetFrame × Mmap × Files) : Type 0 where
  pub required : r.0.required ≡ some (w, h)
  pub copied : (f : ℕ → ℕ) × (r.0.copied ≡ some f) × ((p : ℕ) → p < frame_size w h → f p ≡ pic p)

mmap_file-named :
    (base i size : ℕ) (fs : Files)
    → fs.named ≡ some i
    → (fs.node i).size ≡ size
    → size < 2 ^ 31
    → mmap_file (maps_at base) size unmapped fs
      ≡ (true, mapped (record { file = i; base = base; size = size }), fs)
unfolding mmap_file set_length open_at
mmap_file-named base i size fs e s small =
    let found : open_file fs ≡ (i, fs) = ap (λ o. open_at o fs) e in
    rw (found, lt→ltb size (2 ^ 31) small, s, ==_refl size) refl

module _ {F : Type 0} (tmp : LtrComm F) (m : Mapping) (w h buf_size : ℕ) where
  -- The client sees that the tracking works, with frames of this size, and has room for one.
  pub record Sees : Type 0 where
    pub good : is_good tmp.state ≡ true
    pub resolution : (tmp.full_pose.pose.resolution_x ≡ w) × (tmp.full_pose.pose.resolution_y ≡ h)
    pub room : frame_size w h ≤ buf_size
    pub small : 3 * w * h + extra_data < 2 ^ 31

  read-Copies :
      (k : Pictures) (view : Mapping) (now : Session)
      → Sees
      → Holds m w h (some m.file) k now
      → Attached m (frame_size w h) view
      → Returns
          (Copies w h k.showing)
          (read_frame w h buf_size (mapped view) now.2 >>= (λ r. ok (r, mapped view, now.2)))
  read-Copies k view now sees r v =
      let same : frame_size now.0.width now.0.height ≡ frame_size w h =
        ap₂ frame_size r.size.0 r.size.1 in
      let c = now.2.node m.file in
      let e =
        read_frame-shown m view now.0 now.1 now.2 buf_size r.ready
          (subst (λ t. Attached m t view) (sym same) v)
          (subst (λ t. t ≤ buf_size) (sym same) sees.room) in
      let head : frame_size c.w c.h ≡ frame_size w h =
        ap₂ frame_size (r.ready.header.0 ∙ r.size.0) (r.ready.header.1 ∙ r.size.1) in
      rw (sym r.size.0, sym r.size.1, e)
        (record {
          required = refl;
          copied = (
            shown c,
            refl,
            λ p b.
                ap (λ t. c.pixels (c.flag * t + p)) head ∙ r.showing p (subst (λ t. p < t) same b),
          );
        })

  map-mapped :
      (base : ℕ) (k : Pictures) (now : Session)
      → Sees
      → Holds m w h (some m.file) k now
      → 0 < frame_size w h
      → map_picture (maps_at base) w h unmapped now.2
        ≡ ok (
          true,
          mapped (record { file = m.file; base = base; size = extra_data + 3 * frame_size w h }),
          now.2,
        )
  unfolding map_picture unmap_file
  map-mapped base k now sees r some_pixels =
      let size = data_size_lem w h sees.small in
      let same : frame_size now.0.width now.0.height ≡ frame_size w h =
        ap₂ frame_size r.size.0 r.size.1 in
      rw
        (
          lt→ltb 0 (frame_size w h) some_pixels,
          size,
          mmap_file-named base m.file (extra_data + 3 * frame_size w h) now.2 r.named
              (r.ready.shares.file_size ∙ ap (λ t. extra_data + 3 * t) same)
              (omega (arith, sees.small)),
        )
        refl

  map-Attached :
      (answer : Answer) (view : Mapping) (fs : Files)
      → Attached m (frame_size w h) view
      → map_picture answer w h (mapped view) fs ≡ ok (true, mapped view, fs)
  unfolding map_picture
  map-Attached answer view fs v =
      rw (le→not_ltb view.size (frame_size w h) (omega (arith, v.size))) refl

  get_frame-Copies :
      (answer : Answer) (c : Mmap) (k : Pictures) (now : Session)
      → Sees
      → 0 < frame_size w h
      → Holds m w h (some m.file) k now
      → CanRead m (frame_size w h) answer c
      → Returns (Copies w h k.showing) (get_frame answer tmp buf_size c now.2)
  unfolding get_frame
  get_frame-Copies _ _ k now sees some_pixels r (attached answer view v) =
      rw (sees.good, sees.resolution.0, sees.resolution.1, map-Attached answer view now.2 v)
        (read-Copies k view now sees r v)
  get_frame-Copies _ _ k now sees some_pixels r (first_time base) =
      let view : Mapping = record {
        file = m.file;
        base = base;
        size = extra_data + 3 * frame_size w h;
      } in
      rw (sees.good, sees.resolution.0, sees.resolution.1, map-mapped base k now sees r some_pixels)
        (read-Copies k view now sees r (record { file = refl; size = refl }))

  -- However the tracking process draws pixels and publishes frames of `w` by `h` pixels, a client that sees a working tracking with this resolution, has room for a picture, and has mapped the file or maps it now, is given the last picture that was published, whole, whatever is drawn meanwhile: `showing` of the two pictures.
  pub get_frame-latest :
      (server client : Answer) (c : Mmap) (es : List Event) (k : Pictures) (now : Session)
      → Sees
      → 0 < frame_size w h
      → Holds m w h (some m.file) k now
      → CanRead m (frame_size w h) client c
      → Returns
          (λ (later : Session).
            Returns
              (Copies w h (pictures_after es k).showing)
              (get_frame client tmp buf_size c later.2))
          (session_after server m es now)
  get_frame-latest server client c es k now sees some_pixels r can =
      Returns-mono (Holds m w h (some m.file) (pictures_after es k))
        (λ (later : Session).
          Returns (Copies w h (pictures_after es k).showing)
            (get_frame client tmp buf_size c later.2))
        (session_after server m es now) (session_after-Holds server m w h (some m.file) es k now r)
        (λ later r'. get_frame-Copies client c (pictures_after es k) later sees some_pixels r' can)
