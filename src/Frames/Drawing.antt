-- ===== src/Frames/Drawing.antt =====
-- A pixel that is drawn, against the pair of pictures: `bitmap[o] = v` at the address that the tracking
-- process was given.
use linux_track.Prelude.{
  ℕ, zero, suc, ◌+◌, ◌-◌, ◌*◌, ◌≡◌, ◌≢◌, ◌<◌, ◌≤◌, refl, false, Option, ◌==◌, ==_refl,
  if◌then◌else◌, arith, sym, ap, ap₂, ◌∙◌,
}
use linux_track.Frames.Files.{Content, Files, Mapping, extra_data, fill}
use linux_track.Frames.Publish.{address, Frame, Server, buffer, inc_frame_index, frame_size}
use linux_track.Frames.Ready.{inc_frame_index-other, inc_frame_index-lt}
use linux_track.Frames.Latest.{Ready}
use linux_track.Frames.Sequence.{draw, Pictures, step_pictures, set_pixel, Session, Holds}

fill_pixel :
    (o v q : ℕ) (c : Content) → (fill o 1 (λ p. v) c).pixels q ≡ (if o == q then v else c.pixels q)
unfolding fill
fill_pixel o v q c = ground arith

other_buffer :
    (n i j p o : ℕ) → i < 3 → j < 3 → i ≢ j → p < n → o < n → ((i * n + o) == (j * n + p)) ≡ false
other_buffer n zero zero p o a b d h k = absurd (d refl)
other_buffer n zero (suc j) p o a b d h k = ground (arith)
other_buffer n (suc i) zero p o a b d h k = ground (arith)
other_buffer n (suc zero) (suc zero) p o a b d h k = absurd (d refl)
other_buffer n (suc zero) (suc (suc zero)) p o a b d h k = ground (arith)
other_buffer n (suc (suc zero)) (suc zero) p o a b d h k = ground (arith)
other_buffer n (suc (suc zero)) (suc (suc zero)) p o a b d h k = absurd (d refl)
other_buffer n (suc (suc (suc i))) (suc j) p o a b d h k = absurd (omega arith)
other_buffer n (suc zero) (suc (suc (suc j))) p o a b d h k = absurd (omega arith)
other_buffer n (suc (suc zero)) (suc (suc (suc j))) p o a b d h k = absurd (omega arith)

same_buffer : (i o p : ℕ) → ((i + o) == (i + p)) ≡ (o == p)
same_buffer i o p = ground arith

Ready-set_pixel :
    (m : Mapping) (a o v : ℕ) (frame : Frame) (s : Server) (fs : Files)
    → Ready m frame s fs
    → Ready m frame s (set_pixel m a o v fs)
unfolding fill
Ready-set_pixel m a o v frame s fs r = record {
  mapping = r.mapping;
  same_size = r.same_size;
  header = rw (==_refl m.file) r.header;
  shares = rw (==_refl m.file) (record {
    flag = r.shares.flag;
    mapping_size = r.shares.mapping_size;
    file_size = r.shares.file_size;
  });
  drawable = rw (==_refl m.file) r.drawable;
}

pub draw_pixel-Holds :
    (m : Mapping) (w h o v : ℕ) (name : Option ℕ) (k : Pictures) (frame : Frame) (s : Server)
    (fs : Files)
    → o < frame_size w h
    → Holds m w h name k (frame, s, fs)
    → Holds m w h name (step_pictures (draw o v) k) (
      frame,
      s,
      set_pixel m (buffer m (frame_size w h) (inc_frame_index (fs.node m.file).flag)) o v fs,
    )
unfolding step_pictures fill
draw_pixel-Holds m w h o v name k frame s fs small r =
    let n = frame_size w h in
    let c = fs.node m.file in
    let i = inc_frame_index c.flag in
    let a = buffer m n i in
    let place : a - (m.base + extra_data) ≡ i * n = omega arith in
    let pixel : (q : ℕ)
        → ((set_pixel m a o v fs).node m.file).pixels q
          ≡ (if (i * n + o) == q then v else c.pixels q) =
      λ q. rw (==_refl m.file, place) (fill_pixel (i * n + o) v q c) in
    let c' = (set_pixel m a o v fs).node m.file in
    let flag : c'.flag ≡ c.flag = rw (==_refl m.file) refl in
    record {
      ready = Ready-set_pixel m a o v frame s fs r.ready;
      size = r.size;
      named = r.named;
      bitmap = r.bitmap ∙ ap (λ t. address (buffer m n (inc_frame_index t))) (sym flag);
      drawing = λ p b.
          ap (λ t. c'.pixels (inc_frame_index t * n + p)) flag
          ∙ pixel (i * n + p)
          ∙ ap₂ (λ t u. if t then v else u) (same_buffer (i * n) o p) (r.drawing p b);
      showing = λ p b.
          ap (λ t. c'.pixels (t * n + p)) flag
          ∙ pixel (c.flag * n + p)
          ∙ ap₂ (λ t u. if t then v else u)
              (other_buffer n i c.flag p o (inc_frame_index-lt c.flag) r.ready.shares.flag
                (inc_frame_index-other c.flag r.ready.shares.flag) b small)
              (r.showing p b);
    }

pub outside-Holds :
    (m : Mapping) (w h o v : ℕ) (name : Option ℕ) (k : Pictures) (now : Session)
    → frame_size w h ≤ o
    → Holds m w h name k now
    → Holds m w h name (step_pictures (draw o v) k) now
unfolding step_pictures
outside-Holds m w h o v name k now big r = record {
  ready = r.ready;
  size = r.size;
  named = r.named;
  bitmap = r.bitmap;
  drawing = λ p b. ground (arith, r.drawing p b);
  showing = r.showing;
}
