-- ===== src/Frames/Ready.antt =====
-- What holds between two frames of the same size.
use linux_track.Prelude.{
  ℕ, zero, suc, ◌+◌, ◌-◌, ◌*◌, ◌^◌, ◌≡◌, ◌≢◌, ◌<◌, refl, true, ==_refl, arith, sym, ap, ◌∙◌,
}
use linux_track.Prelude.Exec.{ok, Returns}
use linux_track.Frames.Files.{Content, Mapping, extra_data, fits, fill}
use linux_track.Frames.Publish.{
  Bitmap, null, address, supplied, buffer, inc_frame_index, frame_size, data_size, clear, copy_into,
  with_flag, share_bitmap,
}

pub data_size_lem :
    (w h : ℕ) → 3 * w * h + extra_data < 2 ^ 31 → data_size w h ≡ extra_data + 3 * frame_size w h
data_size_lem w h small = omega arith

-- A file of three buffers of `n` bytes, all of them mapped.
pub record Shares (m : Mapping) (n : ℕ) (c : Content) : Type 0 where
  pub flag : c.flag < 3
  pub mapping_size : m.size ≡ extra_data + 3 * n
  pub file_size : c.size ≡ extra_data + 3 * n

pub buffer_fits :
    (m : Mapping) (n : ℕ) (c : Content) (i : ℕ) → Shares m n c → i < 3 → fits m c (i * n) n ≡ true
buffer_fits m n c zero r h = ground (arith, r.mapping_size, r.file_size)
buffer_fits m n c (suc zero) r h = ground (arith, r.mapping_size, r.file_size)
buffer_fits m n c (suc (suc zero)) r h = ground (arith, r.mapping_size, r.file_size)
buffer_fits m n c (suc (suc (suc i))) r h = absurd (omega arith)

-- Filling one buffer leaves the bytes of the others, and puts `n` bytes there.
pub fill-same :
    (n i p : ℕ) (f : ℕ → ℕ) (c : Content) → p < n → (fill (i * n) n f c).pixels (i * n + p) ≡ f p
unfolding fill
fill-same n i p f c h = let e : i * n + p - i * n ≡ p = omega arith in ground (arith, ap f e)

pub fill-other :
    (n i j p : ℕ) (f : ℕ → ℕ) (c : Content)
    → i < 3
    → j < 3
    → i ≢ j
    → p < n
    → (fill (i * n) n f c).pixels (j * n + p) ≡ c.pixels (j * n + p)
unfolding fill
fill-other n zero zero p f c a b d h = absurd (d refl)
fill-other n zero (suc j) p f c a b d h = ground (arith)
fill-other n (suc i) zero p f c a b d h = ground (arith)
fill-other n (suc zero) (suc zero) p f c a b d h = absurd (d refl)
fill-other n (suc zero) (suc (suc zero)) p f c a b d h = ground (arith)
fill-other n (suc (suc zero)) (suc zero) p f c a b d h = ground (arith)
fill-other n (suc (suc zero)) (suc (suc zero)) p f c a b d h = absurd (d refl)
fill-other n (suc (suc (suc i))) (suc j) p f c a b d h = absurd (omega arith)
fill-other n (suc zero) (suc (suc (suc j))) p f c a b d h = absurd (omega arith)
fill-other n (suc (suc zero)) (suc (suc (suc j))) p f c a b d h = absurd (omega arith)

-- The buffer that is drawn into next, and the one that is cleared for the frame after it, are other
-- buffers than the one that is shown.
pub inc_frame_index-lt : (i : ℕ) → inc_frame_index i < 3
inc_frame_index-lt i = omega arith

pub inc_frame_index-other : (i : ℕ) → i < 3 → inc_frame_index i ≢ i
inc_frame_index-other i h = λ e. omega arith

pub inc_frame_index-third : (i : ℕ) → i < 3 → inc_frame_index (inc_frame_index i) ≢ i
inc_frame_index-third i h = λ e. omega arith

-- The picture that a frame brings.
abbrev pub brought : Mapping → Bitmap → Content → ℕ → ℕ
brought m null c p = 0
brought m (address a) c p = c.pixels (a - (m.base + extra_data) + p)
brought m (supplied f) c p = f p

-- The bitmap is the buffer after the one that is shown, or somebody supplies it.
pub data Drawable (m : Mapping) (n flag : ℕ) : Bitmap → Type 0 where
  drawn : {a : ℕ} → a ≡ buffer m n (inc_frame_index flag) → Drawable m n flag (address a)
  lent : {f : ℕ → ℕ} → Drawable m n flag (supplied f)

-- The file `c` before and `c'` after a picture was published.
pub record Published (m : Mapping) (n : ℕ) (c : Content) (b : Bitmap) (answer : Bitmap × Content)
    : Type 0 where
  pub shares : Shares m n answer.1
  pub drawable : Drawable m n answer.1.flag answer.0
  pub size : (answer.1.w ≡ c.w) × (answer.1.h ≡ c.h)
  pub now : (p : ℕ) → p < n → answer.1.pixels (answer.1.flag * n + p) ≡ brought m b c p
  pub before : (p : ℕ) → p < n → answer.1.pixels (c.flag * n + p) ≡ c.pixels (c.flag * n + p)
  -- The next frame is drawn into a clear buffer.
  pub next :
      (a : ℕ)
      → b ≡ address a
      → (answer.0 ≡ address (buffer m n (inc_frame_index answer.1.flag)))
        × ((p : ℕ) → p < n → answer.1.pixels (inc_frame_index answer.1.flag * n + p) ≡ 0)

pub clear-ok :
    (m : Mapping) (n i : ℕ) (c : Content)
    → Shares m n c
    → i < 3
    → clear m n i c ≡ ok (fill (i * n) n (λ p. 0) c)
unfolding clear
clear-ok m n i c r h = rw (buffer_fits m n c i r h) refl

copy_into-ok :
    (m : Mapping) (n i : ℕ) (f : ℕ → ℕ) (c : Content)
    → Shares m n c
    → i < 3
    → copy_into m n i f c ≡ ok (fill (i * n) n f c)
unfolding copy_into
copy_into-ok m n i f c r h = rw (buffer_fits m n c i r h) refl

pub Shares-fill :
    (m : Mapping) (n o : ℕ) (f : ℕ → ℕ) (c : Content) → Shares m n c → Shares m n (fill o n f c)
unfolding fill
Shares-fill m n o f c r = record {
  flag = r.flag;
  mapping_size = r.mapping_size;
  file_size = r.file_size;
}

Shares-with_flag :
    (m : Mapping) (n i : ℕ) (c : Content) → Shares m n c → i < 3 → Shares m n (with_flag i c)
Shares-with_flag m n i c r h = record {
  flag = h;
  mapping_size = r.mapping_size;
  file_size = r.file_size;
}

buffer_offset : (m : Mapping) (n i : ℕ) → buffer m n i - (m.base + extra_data) ≡ i * n
buffer_offset m n i = omega arith

pub share_bitmap-Published :
    (m : Mapping) (n : ℕ) (b : Bitmap) (c : Content)
    → Shares m n c
    → Drawable m n c.flag b
    → Returns (Published m n c b) (share_bitmap m n b c)
unfolding share_bitmap fill
share_bitmap-Published m n (supplied f) c r (lent) =
    rw (copy_into-ok m n (inc_frame_index c.flag) f c r (inc_frame_index-lt c.flag)) (record {
      shares =
          Shares-with_flag m n (inc_frame_index c.flag) (fill (inc_frame_index c.flag * n) n f c)
            (Shares-fill m n (inc_frame_index c.flag * n) f c r) (inc_frame_index-lt c.flag);
      drawable = lent;
      size = (refl, refl);
      now = λ p h. fill-same n (inc_frame_index c.flag) p f c h;
      before = λ p h.
          fill-other n (inc_frame_index c.flag) c.flag p f c (inc_frame_index-lt c.flag) r.flag
            (inc_frame_index-other c.flag r.flag) h;
      next = λ a e. cc;
    })
share_bitmap-Published m n null c r d = elim d [ ]
share_bitmap-Published m n (address a) c r (drawn e) =
    let i = inc_frame_index c.flag in
    let k = inc_frame_index i in
    let c' = with_flag i c in
    let r' = Shares-with_flag m n i c r (inc_frame_index-lt c.flag) in
    rw (e, ==_refl (buffer m n i), clear-ok m n k c' r' (inc_frame_index-lt i))
      (record {
        shares = Shares-fill m n (k * n) (λ p. 0) c' r';
        drawable = drawn refl;
        size = (refl, refl);
        now = λ p h.
            fill-other n k i p (λ p. 0) c' (inc_frame_index-lt i) (inc_frame_index-lt c.flag)
              (inc_frame_index-other i (inc_frame_index-lt c.flag)) h
            ∙ ap (λ t. c.pixels (t + p)) (sym (buffer_offset m n i));
        before = λ p h.
            fill-other n k c.flag p (λ p. 0) c' (inc_frame_index-lt i) r.flag
              (inc_frame_index-third c.flag r.flag) h;
        next = λ a' e'. (refl, λ p h. fill-same n k p (λ q. 0) c' h);
      })
