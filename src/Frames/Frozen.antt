-- ===== src/Frames/Frozen.antt =====
-- Clients that lose sight of frames.dat.
use linux_track.Prelude.{
  ℕ, ◌+◌, ◌*◌, ◌^◌, ◌≡◌, ◌≢◌, ◌<◌, ◌≤◌, refl, true, false, Option, none, some, List, [], ◌∷◌, ltb,
  leb, ◌==◌, ==_refl, lt→ltb, le→not_ltb, arith, Bool-cases, ◌⊎◌, inl, inr, sym, subst, ◌∙◌,
}
use linux_track.Prelude.Exec.{ok, Returns, Returns-bind, Returns-mono, Returns-both}
use linux_track.Frames.Files.{
  Content, Files, Mapping, Mmap, mapped, unmapped, Answer, maps_at, extra_data, put, empty_file,
  open_at, set_length, ftruncate, mmap_file, unmap_file,
}
use linux_track.Frames.Publish.{address, frame_size, publish_frame, buffer, inc_frame_index}
use linux_track.Frames.Client.{GetFrame, get_frame, read_frame, map_picture, shown}
use linux_track.Frames.Ready.{data_size_lem}
use linux_track.Frames.Latest.{Shown, publish_frame-Shown}
use linux_track.Frames.Sequence.{
  Event, draw, publish, Pictures, step_pictures, Session, draw_at, step_session, session_after,
  Holds,
}
use linux_track.Frames.Steps.{step-Holds}
use linux_track.Ltlib.Comm.{LtrComm, is_good}

-- The file `j` is left alone.
abbrev Untouched : ℕ → Session → Session → Type 0
Untouched j now later = later.2.node j ≡ now.2.node j

module _ (answer : Answer) (m : Mapping) (w h : ℕ) (name : Option ℕ) (j : ℕ) where
  step-Untouched :
      (e : Event) (k : Pictures) (now : Session)
      → m.file ≢ j
      → Holds m w h name k now
      → Returns (Untouched j now) (step_session answer m e now)
  unfolding step_session draw_at
  step-Untouched publish k (frame, s, fs) d r =
      Returns-mono (Shown m frame s fs) (Untouched j (frame, s, fs))
        (publish_frame answer frame s fs) (publish_frame-Shown answer m frame s fs r.ready)
        (λ later p. p.others j d)
  step-Untouched (draw o v) k now d r =
      subst (λ b. Returns (Untouched j now) (draw_at b m o v now)) (sym r.bitmap)
        (drawn_at (Bool-cases (ltb o (frame_size now.0.width now.0.height))))
    where
      drawn_at :
          (ltb o (frame_size now.0.width now.0.height) ≡ true)
            ⊎ (ltb o (frame_size now.0.width now.0.height) ≡ false)
          → Returns (Untouched j now) (
              draw_at
                (address (buffer m (frame_size w h) (inc_frame_index (now.2.node m.file).flag)))
                m
                o
                v
                now)
      drawn_at (inl e) = rw e (ground (arith, d))
      drawn_at (inr e) = rw e refl

  session_after-Untouched :
      (es : List Event) (k : Pictures) (now : Session)
      → m.file ≢ j
      → Holds m w h name k now
      → Returns (Untouched j now) (session_after answer m es now)
  unfolding session_after
  session_after-Untouched [] k now d r = refl
  session_after-Untouched (e ∷ es) k now d r =
      Returns-bind (λ mid. Holds m w h name (step_pictures e k) mid × Untouched j now mid)
        (Untouched j now) (step_session answer m e now) (session_after answer m es)
        (Returns-both (Holds m w h name (step_pictures e k)) (Untouched j now)
          (step_session answer m e now) (step-Holds answer m w h name e k now r)
          (step-Untouched e k now d r))
        (λ mid p.
          Returns-mono (Untouched j mid) (Untouched j now) (session_after answer m es mid)
            (session_after-Untouched es (step_pictures e k) mid d p.0) (λ later q. q ∙ p.1))

read_frame-same :
    (p_w p_h buf_size : ℕ) (view : Mapping) (fs fs' : Files)
    → fs'.node view.file ≡ fs.node view.file
    → read_frame p_w p_h buf_size (mapped view) fs' ≡ read_frame p_w p_h buf_size (mapped view) fs
unfolding read_frame
read_frame-same p_w p_h buf_size view fs fs' e = rw e refl

-- `ltr_int_unmap_file` and `ltr_int_mmap_file` of a client: the name is removed, and stands for a new
-- file then, of `size` bytes.
abbrev cleared_file : ℕ → Content
cleared_file size = ftruncate size empty_file

abbrev renewed : ℕ → Files → Files
renewed size fs = record (put fs.made (cleared_file size) (put fs.made empty_file fs)) {
  named = some fs.made;
  made = fs.made + 1;
}

mmap_file-renewed :
    (base size : ℕ) (fs : Files)
    → 0 < size
    → size < 2 ^ 31
    → mmap_file (maps_at base) size unmapped (record fs { named = none })
      ≡ (true, mapped (record { file = fs.made; base = base; size = size }), renewed size fs)
unfolding mmap_file open_at set_length
mmap_file-renewed base size fs some_size small =
    let other : (0 == size) ≡ false = ground (arith, some_size) in
    rw (lt→ltb size (2 ^ 31) small, ==_refl fs.made, other) refl

elsewhere-Holds :
    (m : Mapping) (w h : ℕ) (name : Option ℕ) (k : Pictures) (now : Session) (fs : Files)
    → fs.node m.file ≡ now.2.node m.file
    → Holds m w h name k now
    → Holds m w h fs.named k (now.0, now.1, fs)
elsewhere-Holds m w h name k now fs e r = record {
  ready = record {
    mapping = r.ready.mapping;
    same_size = r.ready.same_size;
    header = rw e r.ready.header;
    shares = rw e r.ready.shares;
    drawable = rw e r.ready.drawable;
  };
  size = r.size;
  named = refl;
  bitmap = rw e r.bitmap;
  drawing = rw e r.drawing;
  showing = rw e r.showing;
}

-- A call that returned 1 and said that the picture has no pixels.
abbrev no_pixels : (ℕ → ℕ) → GetFrame
no_pixels f = record { required = some (0, 0); copied = some f }

read_frame-no_pixels :
    (p_w p_h buf_size i base size : ℕ) (fs : Files)
    → extra_data ≤ size
    → fs.node i ≡ cleared_file size
    → read_frame p_w p_h buf_size (mapped (record { file = i; base = base; size = size })) fs
      ≡ ok (no_pixels (shown (cleared_file size)))
unfolding read_frame ftruncate
read_frame-no_pixels p_w p_h buf_size i base size fs big e =
    let fit : leb extra_data size ≡ true = ground (arith, big) in
    rw
      (e, fit, le→not_ltb (frame_size p_w p_h) 0 (omega arith), le→not_ltb buf_size 0 (omega arith))
      refl

module _ {F : Type 0} (tmp : LtrComm F) (m : Mapping) (w h buf_size : ℕ) where
  get_frame-remaps :
      (base : ℕ) (view : Mapping) (fs : Files)
      → is_good tmp.state ≡ true
      → (tmp.full_pose.pose.resolution_x ≡ w) × (tmp.full_pose.pose.resolution_y ≡ h)
      → 3 * w * h + extra_data < 2 ^ 31
      → view.size < frame_size w h
      → get_frame (maps_at base) tmp buf_size (mapped view) fs
        ≡ ok (
          no_pixels (shown (cleared_file (extra_data + 3 * frame_size w h))),
          mapped (record { file = fs.made; base = base; size = extra_data + 3 * frame_size w h }),
          renewed (extra_data + 3 * frame_size w h) fs,
        )
  unfolding get_frame map_picture unmap_file
  get_frame-remaps base view fs good resolution small grown =
      let size = extra_data + 3 * frame_size w h in
      rw
        (
          good,
          resolution.0,
          resolution.1,
          lt→ltb view.size (frame_size w h) grown,
          data_size_lem w h small,
          mmap_file-renewed base size fs (omega arith) (omega (arith, small)),
          read_frame-no_pixels w h buf_size fs.made base size (renewed size fs) (omega arith)
              (rw (==_refl fs.made) refl),
        )
        refl

  get_frame-stays :
      (answer : Answer) (view : Mapping) (fs : Files) (result : GetFrame)
      → is_good tmp.state ≡ true
      → (tmp.full_pose.pose.resolution_x ≡ w) × (tmp.full_pose.pose.resolution_y ≡ h)
      → frame_size w h ≤ view.size
      → read_frame w h buf_size (mapped view) fs ≡ ok result
      → get_frame answer tmp buf_size (mapped view) fs ≡ ok (result, mapped view, fs)
  unfolding get_frame map_picture
  get_frame-stays answer view fs result good resolution fits' e =
      rw (good, resolution.0, resolution.1, le→not_ltb view.size (frame_size w h) fits', e) refl

  -- Where the client has mapped another file than the one that the tracking process publishes in, it is
  -- given the same answer however the process draws and publishes: a client that kept its mapping of
  -- the file of smaller frames sees the last of them for ever.
  pub get_frame-frozen :
      (server client : Answer) (view : Mapping) (es : List Event) (name : Option ℕ) (k : Pictures)
      (now : Session) (result : GetFrame)
      → is_good tmp.state ≡ true
      → (tmp.full_pose.pose.resolution_x ≡ w) × (tmp.full_pose.pose.resolution_y ≡ h)
      → frame_size w h ≤ view.size
      → Holds m w h name k now
      → m.file ≢ view.file
      → read_frame w h buf_size (mapped view) now.2 ≡ ok result
      → Returns
          (λ (later : Session).
            get_frame client tmp buf_size (mapped view) later.2 ≡ ok (result, mapped view, later.2))
          (session_after server m es now)
  get_frame-frozen server client view es name k now result good resolution fits' r d e =
      Returns-mono (Untouched view.file now)
        (λ (later : Session).
          get_frame client tmp buf_size (mapped view) later.2 ≡ ok (result, mapped view, later.2))
        (session_after server m es now)
        (session_after-Untouched server m w h name view.file es k now d r)
        (λ later same.
          get_frame-stays client view later.2 result good resolution fits'
            (read_frame-same w h buf_size view now.2 later.2 same ∙ e))

  -- A client whose mapping is smaller than the picture, as after the frames grew beyond the three
  -- buffers that it mapped, removes the name of the file that the tracking process publishes in and
  -- maps a new, empty file: it is told of a picture of 0 by 0 pixels, now and however the process
  -- draws and publishes from then on.
  pub get_frame-lost :
      (server client : Answer) (base : ℕ) (view : Mapping) (es : List Event) (name : Option ℕ)
      (k : Pictures) (now : Session)
      → is_good tmp.state ≡ true
      → (tmp.full_pose.pose.resolution_x ≡ w) × (tmp.full_pose.pose.resolution_y ≡ h)
      → 3 * w * h + extra_data < 2 ^ 31
      → view.size < frame_size w h
      → Holds m w h name k now
      → m.file ≢ now.2.made
      → Returns
          (λ (first : GetFrame × Mmap × Files).
            (first.0.required ≡ some (0, 0))
            × Returns
                (λ (later : Session).
                  get_frame client tmp buf_size first.1 later.2 ≡ ok (first.0, first.1, later.2))
                (session_after server m es (now.0, now.1, first.2)))
          (get_frame (maps_at base) tmp buf_size (mapped view) now.2)
  get_frame-lost server client base view es name k now good resolution small grown r d =
      let size = extra_data + 3 * frame_size w h in
      let fs = renewed size now.2 in
      let own : Mapping = record { file = now.2.made; base = base; size = size } in
      let kept : fs.node m.file ≡ now.2.node m.file = ground (arith, d) in
      rw (get_frame-remaps base view now.2 good resolution small grown) (
        refl,
        get_frame-frozen server client own es fs.named k (now.0, now.1, fs)
            (no_pixels (shown (cleared_file size))) good resolution (omega arith)
            (elsewhere-Holds m w h name k now fs kept r) d
            (read_frame-no_pixels w h buf_size now.2.made base size fs (omega arith)
              (rw (==_refl now.2.made) refl)),
      )
