-- ===== src/Image/Draw/Bounds.antt =====
-- Which pixels the marks touch.
use linux_track.Prelude.{
  ℕ, zero, suc, ◌+◌, ◌-◌, ◌*◌, ◌≤◌, ◌<◌, ◌≡◌, refl, ◌∙◌, true, List, ltb, length, set, ℤ, pos, ◌+ℤ◌,
  ◌-ℤ◌, arith, length-set,
}
use linux_track.Prelude.Exec.{ok, fault}
use linux_track.Prelude.Float.{FloatOps}
use linux_track.Image.Draw.{Bitmap, clip_coord, paint, draw_cross, scaled, draw_stripe}

pub clip_coord-at_most : (c : ℤ) (hi : ℕ) → clip_coord c 0 hi ≤ hi
unfolding clip_coord
clip_coord-at_most c hi = ground arith

pub clip_coord-inside : (n hi : ℕ) → n ≤ hi → clip_coord (pos n) 0 hi ≡ n
unfolding clip_coord
clip_coord-inside n hi h = ground arith

clip_coord-beyond : (n hi : ℕ) → hi ≤ n → clip_coord (pos n) 0 hi ≡ hi
unfolding clip_coord
clip_coord-beyond n hi h = ground arith

pub paint-within :
    (n ptr step color : ℕ) (bitmap : List ℕ)
    → ((k : ℕ) → k < n → ptr + step * k < length bitmap)
    → (bitmap' : List ℕ) × (paint n ptr step color bitmap ≡ ok bitmap')
      × (length bitmap' ≡ length bitmap)
unfolding paint
paint-within zero ptr step color bitmap h = (bitmap, refl, refl)
paint-within (suc n) ptr step color bitmap h =
    let first : ltb ptr (length bitmap) ≡ true = ground (arith, h 0) in
    let size = length-set bitmap ptr color in
    let (b, run, len) =
      paint-within n (ptr + step) step color (set bitmap ptr color)
        (λ k l. grind (arith, h (suc k), size)) in
    (b, rw first run, len ∙ size)

row_below : (w h y x : ℕ) → y < h → x < w → w * y + x < w * h
row_below w h y x a b = grind arith

column_below : (w h y x k : ℕ) → y + k < h → x < w → w * y + x + w * k < w * h
column_below w h y x k a b = grind (arith, row_below w h (y + k) x a b)

-- Wherever the cross is put and whatever its size, also outside of the picture, it is drawn within the
-- bitmap, which keeps its length.
pub draw_cross-within :
    {F : Type 0} (img : Bitmap F) (x y size : ℤ)
    → 0 < img.w
    → 0 < img.h
    → length img.bitmap ≡ img.w * img.h
    → (img' : Bitmap F) × (draw_cross img x y size ≡ ok img') × (length img'.bitmap ≡ img.w * img.h)
unfolding draw_cross
draw_cross-within img x y size wide high len =
    let x_m = clip_coord (x -ℤ size) 0 (img.w - 1) in
    let x_p = clip_coord (x +ℤ size) 0 (img.w - 1) in
    let y_m = clip_coord (y -ℤ size) 0 (img.h - 1) in
    let y_p = clip_coord (y +ℤ size) 0 (img.h - 1) in
    let x' = clip_coord x 0 (img.w - 1) in
    let y' = clip_coord y 0 (img.h - 1) in
    let right = clip_coord-at_most (x +ℤ size) (img.w - 1) in
    let low = clip_coord-at_most (y +ℤ size) (img.h - 1) in
    let at_x = clip_coord-at_most x (img.w - 1) in
    let at_y = clip_coord-at_most y (img.h - 1) in
    let (row, run1, len1) =
      paint-within (x_p + 1 - x_m) (img.w * y' + x_m) 1 0xFF img.bitmap (λ k l.
        let z = row_below img.w img.h y' (x_m + k) (omega arith) (omega arith) in
        omega (arith, z, len)) in
    let (both, run2, len2) = paint-within (y_p + 1 - y_m) (img.w * y_m + x') img.w 0xFF row (λ k l.
      let z = column_below img.w img.h y_m x' k (omega arith) (omega arith) in
      omega (arith, z, len, len1)) in
    (record img { bitmap = both }, rw (run1, run2) refl, len2 ∙ len1 ∙ len)

paint-past :
    (n ptr color : ℕ) (bitmap : List ℕ)
    → 0 < n
    → length bitmap < ptr + n
    → paint n ptr 1 color bitmap ≡ fault
unfolding paint
paint-past zero ptr color bitmap a b = absurd (omega arith)
paint-past (suc zero) ptr color bitmap a b = ground arith
paint-past (suc (suc n)) ptr color bitmap a b =
    let size = length-set bitmap ptr color in
    let rest =
      paint-past (suc n) (ptr + 1) color (set bitmap ptr color) (omega arith)
        (omega (arith, size)) in
    ground (arith, rest)

last_row : (w h : ℕ) → 0 < h → w * (h - 1) + w ≡ w * h
last_row w zero a = absurd (omega arith)
last_row w (suc h) a = grind arith

module _ (fl : FloatOps) where
  open fl use {F}

  -- A stripe on the last row that reaches the right edge is drawn past the end of the bitmap.
  pub draw_stripe-past_end :
      (img : Bitmap F) (x x_end : ℤ) (y color n : ℕ)
      → 0 < img.w
      → 0 < img.h
      → length img.bitmap ≡ img.w * img.h
      → y ≡ img.h - 1
      → scaled fl img x_end ≡ pos n
      → img.w - 1 ≤ n
      → draw_stripe fl img x (pos y) x_end color ≡ fault
  unfolding draw_stripe
  draw_stripe-past_end img x x_end y color n wide high len e f g =
      let end : clip_coord (scaled fl img x_end) 0 (img.w - 1) ≡ img.w - 1 =
        rw f (clip_coord-beyond n (img.w - 1) g) in
      let row : clip_coord (pos y) 0 (img.h - 1) ≡ img.h - 1 =
        rw e (clip_coord-inside (img.h - 1) (img.h - 1) (omega arith)) in
      let start = clip_coord-at_most (scaled fl img x) (img.w - 1) in
      let x' = clip_coord (scaled fl img x) 0 (img.w - 1) in
      let past =
        paint-past (img.w - 1 + 1 - x') (img.w * (img.h - 1) + x' + 1) color img.bitmap
          (omega arith) (omega (arith, len, last_row img.w img.h high)) in
      rw (end, row, past) refl
