-- ===== src/Frames/Cleared.antt =====
-- Frames.dat after a frame of a new size is shared: the buffers are cleared and the frame is to be drawn
-- into the second one.
use linux_track.Prelude.{
  ℕ, ◌+◌, ◌-◌, ◌*◌, ◌%◌, ◌^◌, ◌≡◌, ◌<◌, refl, true, some, leb, ==_refl, arith, sym, ap, subst, ◌∙◌,
}
use linux_track.Prelude.Exec.{ok, ◌>>=◌, Returns, Returns-bind}
use linux_track.Frames.Files.{Content, Files, Mapping, mapped, extra_data, fill, put}
use linux_track.Frames.Publish.{
  Bitmap, null, address, Frame, Server, buffer, inc_frame_index, frame_size, share_resized,
  share_at, share_bitmap, clear_flag, note_size, with_flag,
}
use linux_track.Frames.Ready.{Shares, Drawable, drawn, clear-ok, Shares-fill, fill-same, fill-other}
use linux_track.Frames.Sequence.{Pictures, Session, Holds}

abbrev pub blank : Pictures
blank = record { drawing = λ p. 0; showing = λ p. 0 }

-- Buffer 0 is shown, buffer 1 is to be drawn into, both cleared.
pub record Cleared (m : Mapping) (n w h : ℕ) (answer : Bitmap × Content) : Type 0 where
  pub shares : Shares m n answer.1
  pub bitmap : answer.0 ≡ address (buffer m n 1)
  pub flag : answer.1.flag ≡ 0
  pub size : (answer.1.w ≡ w) × (answer.1.h ≡ h)
  pub drawing : (p : ℕ) → p < n → answer.1.pixels (1 * n + p) ≡ 0
  pub showing : (p : ℕ) → p < n → answer.1.pixels (0 * n + p) ≡ 0

share_bitmap-Cleared :
    (m : Mapping) (n : ℕ) (c : Content)
    → m.size ≡ extra_data + 3 * n
    → c.size ≡ extra_data + 3 * n
    → Returns (Cleared m n c.w c.h) (share_bitmap m n null c)
unfolding share_bitmap fill
share_bitmap-Cleared m n c a b =
    let c₀ = with_flag 0 c in
    let r₀ : Shares m n c₀ = record { flag = omega arith; mapping_size = a; file_size = b } in
    let c₁ = fill (0 * n) n (λ p. 0) c₀ in
    let r₁ = Shares-fill m n (0 * n) (λ p. 0) c₀ r₀ in
    rw (clear-ok m n 0 c₀ r₀ (omega arith), clear-ok m n 1 c₁ r₁ (omega arith))
      (record {
        shares = Shares-fill m n (1 * n) (λ p. 0) c₁ r₁;
        bitmap = refl;
        flag = refl;
        size = (refl, refl);
        drawing = λ p h. fill-same n 1 p (λ q. 0) c₁ h;
        showing = λ p h.
            fill-other n 1 0 p (λ q. 0) c₁ (omega arith) (omega arith) (λ e. omega arith) h
            ∙ fill-same n 0 p (λ q. 0) c₀ h;
      })

-- The file `m` is mapped, has its name and room for three frames.
pub record Laid (m : Mapping) (n : ℕ) (fs : Files) : Type 0 where
  pub mapping_size : m.size ≡ extra_data + 3 * n
  pub file_size : (fs.node m.file).size ≡ extra_data + 3 * n
  pub named : fs.named ≡ some m.file

Cleared-after :
    (m : Mapping) (frame : Frame) (s : Server) (fs : Files)
    → s.mmap ≡ mapped m
    → (frame.width ≡ s.current_w) × (frame.height ≡ s.current_h)
    → fs.named ≡ some m.file
    → (answer : Bitmap × Content)
    → Cleared m (frame_size frame.width frame.height) frame.width frame.height answer
    → Holds m frame.width frame.height
        (some m.file)
        blank
        (record frame { bitmap = answer.0 }, s, put m.file answer.1 fs)
Cleared-after m frame s fs e same named answer r =
    let n = frame_size frame.width frame.height in
    record {
      ready = record {
        mapping = e;
        same_size = same;
        header = rw (==_refl m.file) r.size;
        shares = rw (==_refl m.file) r.shares;
        drawable = rw (==_refl m.file) (
            subst (λ b. Drawable m n answer.1.flag b) (sym r.bitmap)
              (drawn (ap (λ t. buffer m n (inc_frame_index t)) (sym r.flag))));
      };
      size = (refl, refl);
      named = named;
      bitmap =
          rw (==_refl m.file)
            (r.bitmap ∙ ap (λ t. address (buffer m n (inc_frame_index t))) (sym r.flag));
      drawing = λ p b.
          rw (==_refl m.file)
            (ap (λ t. answer.1.pixels (inc_frame_index t * n + p)) r.flag ∙ r.drawing p b);
      showing =
          λ p b. rw (==_refl m.file) (ap (λ t. answer.1.pixels (t * n + p)) r.flag ∙ r.showing p b);
    }

share_at-Cleared :
    (m : Mapping) (frame : Frame) (s : Server) (fs : Files)
    → s.mmap ≡ mapped m
    → (frame.width ≡ s.current_w) × (frame.height ≡ s.current_h)
    → frame.bitmap ≡ null
    → Laid m (frame_size frame.width frame.height) fs
    → Returns
        (Holds m frame.width frame.height (some m.file) blank)
        (share_at (mapped m) frame s fs)
unfolding share_at
share_at-Cleared m frame s fs e same empty r =
    let n = frame_size frame.width frame.height in
    let c = record (fs.node m.file) { w = frame.width; h = frame.height } in
    let head : (leb extra_data m.size ≡ true) × (leb extra_data (fs.node m.file).size ≡ true) =
      ground (arith, r.mapping_size, r.file_size) in
    rw (head.0, head.1)
      (Returns-bind {A = Bitmap × Content} {B = Session} (Cleared m n frame.width frame.height)
        (Holds m frame.width frame.height (some m.file) blank) (share_bitmap m n frame.bitmap c)
        (λ shared. ok (record frame { bitmap = shared.0 }, s, put m.file shared.1 fs))
        (subst (λ b. Returns (Cleared m n frame.width frame.height) (share_bitmap m n b c))
          (sym empty) (share_bitmap-Cleared m n c r.mapping_size r.file_size))
        (λ answer p. Cleared-after m frame s fs e same r.named answer p))

pub resized-Holds :
    (m : Mapping) (frame : Frame) (s : Server) (fs : Files)
    → s.mmap ≡ mapped m
    → frame.bitmap ≡ null
    → Laid m (frame_size frame.width frame.height) fs
    → Returns (Holds m frame.width frame.height (some m.file) blank) (share_resized frame s fs)
unfolding share_resized clear_flag note_size
resized-Holds m frame s fs e empty r =
    subst
      (λ x.
        Returns (Holds m frame.width frame.height (some m.file) blank)
          (clear_flag x fs >>= (λ fs₁. share_at x frame (note_size frame s) fs₁)))
      (sym e)
      (rw (room.0, room.1)
        (share_at-Cleared m frame (note_size frame s)
          (put m.file (with_flag (c.flag - c.flag % 2 ^ 8) c) fs) e (refl, refl) empty
          (record {
            mapping_size = r.mapping_size;
            file_size = rw (==_refl m.file) r.file_size;
            named = r.named;
          })))
  where
    c : Content
    c = fs.node m.file

    room : (leb 1 m.size ≡ true) × (leb 1 (fs.node m.file).size ≡ true)
    room = ground (arith, r.mapping_size, r.file_size)
