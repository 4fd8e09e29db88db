-- ===== src/Frames/Sequence.antt =====
-- Drawing and publishing in any order, and what they mean for a pair of pictures: the one that is
-- drawn and the one that is shown.
use linux_track.Prelude.{
  ℕ, ◌+◌, ◌-◌, ◌*◌, ◌≡◌, ◌<◌, Option, List, [], ◌∷◌, ltb, ◌==◌, if◌then◌else◌,
}
use linux_track.Prelude.Exec.{Exec, ok, fault, ◌>>=◌}
use linux_track.Frames.Files.{Files, Mapping, Answer, extra_data, fill, put}
use linux_track.Frames.Publish.{
  Bitmap, address, Frame, Server, buffer, inc_frame_index, frame_size, publish_frame,
}
use linux_track.Frames.Latest.{Ready}

-- What the camera's code does: it sets a pixel of `frame->bitmap`, or hands the frame over.
pub data Event : Type 0 where
  draw : ℕ → ℕ → Event
  publish : Event

pub record Pictures : Type 0 where
  pub drawing : ℕ → ℕ
  pub showing : ℕ → ℕ

-- What the events mean for the two pictures.
unfoldable pub step_pictures : Event → Pictures → Pictures
step_pictures (draw o v) k = record k { drawing = λ p. if o == p then v else k.drawing p }
step_pictures publish k = record { drawing = λ p. 0; showing = k.drawing }

unfoldable pub pictures_after : List Event → Pictures → Pictures
pictures_after [] k = k
pictures_after (e ∷ es) k = pictures_after es (step_pictures e k)

-- `bitmap[o] = v` at an address.
abbrev pub set_pixel : Mapping → ℕ → ℕ → ℕ → Files → Files
set_pixel m a o v fs =
    put m.file (fill (a - (m.base + extra_data) + o) 1 (λ p. v) (fs.node m.file)) fs

abbrev pub Session : Type 0
Session = Frame × Server × Files

-- A pixel outside of the frame is not drawn.
unfoldable pub draw_at : Bitmap → Mapping → ℕ → ℕ → Session → Exec Session
draw_at (address a) m o v (frame, s, fs) =
    if ltb o (frame_size frame.width frame.height)
    then ok (frame, s, set_pixel m a o v fs)
    else ok (frame, s, fs)
draw_at b m o v k = fault

unfoldable pub step_session : Answer → Mapping → Event → Session → Exec Session
step_session answer m publish (frame, s, fs) = publish_frame answer frame s fs
step_session answer m (draw o v) k = draw_at k.0.bitmap m o v k

unfoldable pub session_after : Answer → Mapping → List Event → Session → Exec Session
session_after answer m [] k = ok k
session_after answer m (e ∷ es) k = step_session answer m e k >>= session_after answer m es

-- The buffers hold the two pictures; frames.dat stands for the file `name`.
pub record Holds (m : Mapping) (w h : ℕ) (name : Option ℕ) (k : Pictures) (now : Session)
    : Type 0 where
  pub ready : Ready m now.0 now.1 now.2
  pub size : (now.0.width ≡ w) × (now.0.height ≡ h)
  pub named : now.2.named ≡ name
  pub bitmap :
      now.0.bitmap ≡ address (buffer m (frame_size w h) (inc_frame_index (now.2.node m.file).flag))
  pub drawing :
      (p : ℕ)
      → p < frame_size w h
      → (now.2.node m.file).pixels (inc_frame_index (now.2.node m.file).flag * frame_size w h + p)
        ≡ k.drawing p
  pub showing :
      (p : ℕ)
      → p < frame_size w h
      → (now.2.node m.file).pixels ((now.2.node m.file).flag * frame_size w h + p) ≡ k.showing p
