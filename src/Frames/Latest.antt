-- ===== src/Frames/Latest.antt =====
-- Publishing frames of one size, and a client that reads them.
use linux_track.Prelude.{
  ℕ, ◌+◌, ◌*◌, ◌≡◌, ◌≢◌, ◌<◌, ◌≤◌, refl, true, false, ◌&&◌, ◌||◌, some, ltb, leb, ◌==◌, ==_refl,
  arith, sym, ap, ap₂, subst, ◌∙◌,
}
use linux_track.Prelude.Exec.{ok, Returns, Returns-bind}
use linux_track.Frames.Files.{Content, Files, Mapping, mapped, Answer, extra_data, put}
use linux_track.Frames.Publish.{
  Bitmap, null, address, supplied, Frame, Server, buffer, inc_frame_index, frame_size, share_bitmap,
  share_at, publish_frame,
}
use linux_track.Frames.Client.{shown, read_frame}
use linux_track.Frames.Ready.{
  Shares, Drawable, Published, brought, share_bitmap-Published, buffer_fits,
}

-- `m` maps a file that is laid out for frames of this size, and the frame has a picture to publish.
pub record Ready (m : Mapping) (frame : Frame) (s : Server) (fs : Files) : Type 0 where
  pub mapping : s.mmap ≡ mapped m
  pub same_size : (frame.width ≡ s.current_w) × (frame.height ≡ s.current_h)
  pub header : ((fs.node m.file).w ≡ frame.width) × ((fs.node m.file).h ≡ frame.height)
  pub shares : Shares m (frame_size frame.width frame.height) (fs.node m.file)
  pub drawable : Drawable m (frame_size frame.width frame.height) (fs.node m.file).flag frame.bitmap

-- The picture `pic` is the one that is shown, the state is ready for the next frame of this size, and
-- the buffer that was shown before is as it was.
pub record Shown (m : Mapping) (frame : Frame) (s : Server) (fs : Files)
    (answer : Frame × Server × Files) : Type 0 where
  pub ready : Ready m answer.0 answer.1 answer.2
  pub size : (answer.0.width ≡ frame.width) × (answer.0.height ≡ frame.height)
  pub named : answer.2.named ≡ fs.named
  pub others : (j : ℕ) → m.file ≢ j → answer.2.node j ≡ fs.node j
  pub now :
      (p : ℕ)
      → p < frame_size frame.width frame.height
      → shown (answer.2.node m.file) p ≡ brought m frame.bitmap (fs.node m.file) p
  pub before :
      (p : ℕ)
      → p < frame_size frame.width frame.height
      → (answer.2.node m.file).pixels
          ((fs.node m.file).flag * frame_size frame.width frame.height + p)
        ≡ (fs.node m.file).pixels ((fs.node m.file).flag * frame_size frame.width frame.height + p)
  pub next :
      (a : ℕ)
      → frame.bitmap ≡ address a
      → (answer.0.bitmap
          ≡ address (
              buffer m
                (frame_size frame.width frame.height)
                (inc_frame_index (answer.2.node m.file).flag)))
        × ((p : ℕ)
            → p < frame_size frame.width frame.height
            → (answer.2.node m.file).pixels (
                inc_frame_index (answer.2.node m.file).flag * frame_size frame.width frame.height
                + p)
              ≡ 0)

same_brought :
    (m : Mapping) (b : Bitmap) (c : Content) (w h p : ℕ)
    → brought m b (record c { w = w; h = h }) p ≡ brought m b c p
same_brought m null c w h p = refl
same_brought m (address a) c w h p = refl
same_brought m (supplied f) c w h p = refl

Shown-after :
    (m : Mapping) (frame : Frame) (s : Server) (fs : Files)
    → Ready m frame s fs
    → (answer : Bitmap × Content)
    → Published m
        (frame_size frame.width frame.height)
        (record (fs.node m.file) { w = frame.width; h = frame.height })
        frame.bitmap
        answer
    → Shown m frame s fs (record frame { bitmap = answer.0 }, s, put m.file answer.1 fs)
Shown-after m frame s fs r answer p =
    let n = frame_size frame.width frame.height in
    record {
      ready = record {
        mapping = r.mapping;
        same_size = r.same_size;
        header = rw (==_refl m.file) p.size;
        shares = rw (==_refl m.file) p.shares;
        drawable = rw (==_refl m.file) p.drawable;
      };
      size = (refl, refl);
      named = refl;
      others = λ j d. ground (arith, d);
      now = λ q h. rw (==_refl m.file) (
          ap (λ t. answer.1.pixels (answer.1.flag * t + q)) (ap₂ frame_size p.size.0 p.size.1)
          ∙ p.now q h
          ∙ same_brought m frame.bitmap (fs.node m.file) frame.width frame.height q);
      before = λ q h. rw (==_refl m.file) (p.before q h);
      next = λ a e. rw (==_refl m.file) (p.next a e);
    }

share_at-Shown :
    (m : Mapping) (frame : Frame) (s : Server) (fs : Files)
    → Ready m frame s fs
    → Returns (Shown m frame s fs) (share_at (mapped m) frame s fs)
unfolding share_at
share_at-Shown m frame s fs r =
    let n = frame_size frame.width frame.height in
    let c = record (fs.node m.file) { w = frame.width; h = frame.height } in
    let head : (leb extra_data m.size ≡ true) × (leb extra_data (fs.node m.file).size ≡ true) =
      ground (arith, r.shares.mapping_size, r.shares.file_size) in
    let sh : Shares m n c = record {
      flag = r.shares.flag;
      mapping_size = r.shares.mapping_size;
      file_size = r.shares.file_size;
    } in
    rw (head.0, head.1)
      (Returns-bind {A = Bitmap × Content} {B = Frame × Server × Files}
        (Published m n c frame.bitmap) (Shown m frame s fs) (share_bitmap m n frame.bitmap c)
        (λ shared. ok (record frame { bitmap = shared.0 }, s, put m.file shared.1 fs))
        (share_bitmap-Published m n frame.bitmap c sh r.drawable)
        (λ answer p. Shown-after m frame s fs r answer p))

-- What `publish_frame` does with a frame of the size of the last one.
pub publish_frame-Shown :
    (answer : Answer) (m : Mapping) (frame : Frame) (s : Server) (fs : Files)
    → Ready m frame s fs
    → Returns (Shown m frame s fs) (publish_frame answer frame s fs)
unfolding publish_frame
publish_frame-Shown answer m frame s fs r =
    let e : ((frame.width == s.current_w) && (frame.height == s.current_h)) ≡ true =
      ground (arith, r.same_size) in
    rw e (
      subst (λ x. Returns (Shown m frame s fs) (share_at x frame s fs)) (sym r.mapping)
        (share_at-Shown m frame s fs r))

-- A client that maps the file, as long as `ltr_get_frame` lets it do so for frames of this size.
pub record Attached (m : Mapping) (n : ℕ) (view : Mapping) : Type 0 where
  pub file : view.file ≡ m.file
  pub size : view.size ≡ extra_data + 3 * n

pub read_frame-shown :
    (m view : Mapping) (frame : Frame) (s : Server) (fs : Files) (buf_size : ℕ)
    → Ready m frame s fs
    → Attached m (frame_size frame.width frame.height) view
    → frame_size frame.width frame.height ≤ buf_size
    → read_frame frame.width frame.height buf_size (mapped view) fs
      ≡ ok (record {
        required = some (frame.width, frame.height);
        copied = some (shown (fs.node m.file));
      })
unfolding read_frame
read_frame-shown m view frame s fs buf_size r v big =
    let c = fs.node m.file in
    let n = frame_size frame.width frame.height in
    let sh : Shares view n c = record {
      flag = r.shares.flag;
      mapping_size = v.size;
      file_size = r.shares.file_size;
    } in
    let head : (leb extra_data view.size ≡ true) × (leb extra_data c.size ≡ true) =
      ground (arith, v.size, r.shares.file_size) in
    let fit = buffer_fits view n c c.flag sh r.shares.flag in
    let roomy : (ltb n n || ltb buf_size n) ≡ false = ground arith in
    rw (v.file) (rw (head.0, head.1, r.header.0, r.header.1, roomy, fit) refl)
