-- ===== src/Frames/Steps.antt =====
-- Any sequence of drawing and publishing, against the pair of pictures.
use linux_track.Prelude.{
  ℕ, ◌+◌, ◌-◌, ◌*◌, ◌≡◌, ◌<◌, true, false, Option, List, [], ◌∷◌, ltb, arith, Bool-cases, ◌⊎◌, inl,
  inr, sym, ap, ap₂, subst, ◌∙◌,
}
use linux_track.Prelude.Exec.{Returns, Returns-bind, Returns-mono}
use linux_track.Frames.Files.{Files, Mapping, Answer, extra_data}
use linux_track.Frames.Publish.{
  address, Frame, Server, buffer, inc_frame_index, frame_size, publish_frame,
}
use linux_track.Frames.Ready.{brought}
use linux_track.Frames.Latest.{Shown, publish_frame-Shown}
use linux_track.Frames.Sequence.{
  Event, draw, publish, Pictures, step_pictures, pictures_after, Session, draw_at, step_session,
  session_after, Holds,
}
use linux_track.Frames.Drawing.{draw_pixel-Holds, outside-Holds}

publish-Holds :
    (m : Mapping) (w h : ℕ) (name : Option ℕ) (k : Pictures) (frame : Frame) (s : Server)
    (fs : Files)
    → Holds m w h name k (frame, s, fs)
    → (now : Session) → Shown m frame s fs now
    → Holds m w h name (step_pictures publish k) now
unfolding step_pictures
publish-Holds m w h name k frame s fs r now p =
    let n = frame_size w h in
    let c = fs.node m.file in
    let c' = now.2.node m.file in
    let i = inc_frame_index c.flag in
    let a = buffer m n i in
    let same : frame_size frame.width frame.height ≡ n = ap₂ frame_size r.size.0 r.size.1 in
    let next =
      subst
        (λ t.
          (now.0.bitmap ≡ address (buffer m t (inc_frame_index c'.flag)))
          × ((q : ℕ) → q < t → c'.pixels (inc_frame_index c'.flag * t + q) ≡ 0))
        same (p.next a r.bitmap) in
    let head : frame_size c'.w c'.h ≡ n =
      ap₂ frame_size (p.ready.header.0 ∙ p.size.0 ∙ r.size.0)
        (p.ready.header.1 ∙ p.size.1 ∙ r.size.1) in
    let place : a - (m.base + extra_data) ≡ i * n = omega arith in
    record {
      ready = p.ready;
      size = (p.size.0 ∙ r.size.0, p.size.1 ∙ r.size.1);
      named = p.named ∙ r.named;
      bitmap = next.0;
      drawing = next.1;
      showing = λ q b.
          ap (λ t. c'.pixels (c'.flag * t + q)) (sym head)
          ∙ p.now q (subst (λ t. q < t) (sym same) b)
          ∙ ap (λ x. brought m x c q) r.bitmap
          ∙ ap (λ t. c.pixels (t + q)) place
          ∙ r.drawing q b;
    }

pub step-Holds :
    (answer : Answer) (m : Mapping) (w h : ℕ) (name : Option ℕ) (e : Event) (k : Pictures)
    (now : Session)
    → Holds m w h name k now
    → Returns (Holds m w h name (step_pictures e k)) (step_session answer m e now)
unfolding step_session draw_at
step-Holds answer m w h name publish k (frame, s, fs) r =
    Returns-mono (Shown m frame s fs) (Holds m w h name (step_pictures publish k))
      (publish_frame answer frame s fs) (publish_frame-Shown answer m frame s fs r.ready)
      (publish-Holds m w h name k frame s fs r)
step-Holds answer m w h name (draw o v) k (frame, s, fs) r =
    subst
      (λ b.
        Returns (Holds m w h name (step_pictures (draw o v) k)) (draw_at b m o v (frame, s, fs)))
      (sym r.bitmap) (drawn_at (Bool-cases (ltb o (frame_size frame.width frame.height))))
  where
    same : frame_size frame.width frame.height ≡ frame_size w h
    same = ap₂ frame_size r.size.0 r.size.1

    drawn_at :
        (ltb o (frame_size frame.width frame.height) ≡ true)
          ⊎ (ltb o (frame_size frame.width frame.height) ≡ false)
        → Returns (Holds m w h name (step_pictures (draw o v) k)) (
            draw_at
              (address (buffer m (frame_size w h) (inc_frame_index (fs.node m.file).flag)))
              m
              o
              v
              (frame, s, fs))
    drawn_at (inl e) = rw e (draw_pixel-Holds m w h o v name k frame s fs (ground (arith, same)) r)
    drawn_at (inr e) = rw e (outside-Holds m w h o v name k (frame, s, fs) (ground (arith, same)) r)

pub session_after-Holds :
    (answer : Answer) (m : Mapping) (w h : ℕ) (name : Option ℕ) (es : List Event) (k : Pictures)
    (now : Session)
    → Holds m w h name k now
    → Returns (Holds m w h name (pictures_after es k)) (session_after answer m es now)
unfolding pictures_after session_after
session_after-Holds answer m w h name [] k now r = r
session_after-Holds answer m w h name (e ∷ es) k now r =
    Returns-bind (Holds m w h name (step_pictures e k))
      (Holds m w h name (pictures_after es (step_pictures e k))) (step_session answer m e now)
      (session_after answer m es) (step-Holds answer m w h name e k now r)
      (session_after-Holds answer m w h name es (step_pictures e k))
