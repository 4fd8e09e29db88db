-- ===== src/Image/Draw.antt =====
-- src/image_process.c: the marks that are drawn into the picture. An image has at least one row and
-- one column; a pointer into the bitmap is its offset.
pub mod Bounds
use linux_track.Prelude.{
  ℕ, zero, suc, ◌+◌, ◌-◌, ◌*◌, ◌^◌, Bool, true, false, List, if◌then◌else◌, ltb, ◌&&◌, length, set,
  ℤ, pos, negsuc, pos_part, ltb_ℤ, ◌+ℤ◌, ◌-ℤ◌,
}
use linux_track.Prelude.Exec.{Exec, ok, fault, ◌>>=◌}
use linux_track.Prelude.Float.{FloatOps}

-- `image_t`
pub record Bitmap (F : Type 0) : Type 0 where
  pub bitmap : List ℕ
  pub w : ℕ
  pub h : ℕ
  pub ratio : F

-- The value of an `int` held as its bit pattern.
abbrev pub signed32 : ℕ → ℤ
signed32 w = if ltb w (2 ^ 31) then pos w else negsuc (2 ^ 32 - 1 - w)

-- The bounds of every call are not negative, and so is the result.
unfoldable pub clip_coord : ℤ → ℕ → ℕ → ℕ
clip_coord coord min max =
    let tmp = if ltb_ℤ coord (pos min) then min else pos_part coord in
    if ltb max tmp then max else tmp

-- `*ptr = color; ptr += step;` with the rounds left.
unfoldable pub paint : ℕ → ℕ → ℕ → ℕ → List ℕ → Exec (List ℕ)
paint zero ptr step color bitmap = ok bitmap
paint (suc n) ptr step color bitmap =
    if ltb ptr (length bitmap)
    then paint n (ptr + step) step color (set bitmap ptr color)
    else fault

unfoldable pub draw_cross : {F : Type 0} → Bitmap F → ℤ → ℤ → ℤ → Exec (Bitmap F)
unfolding clip_coord paint
draw_cross img x y size = do
  let x_m = clip_coord (x -ℤ size) 0 (img.w - 1)
  let x_p = clip_coord (x +ℤ size) 0 (img.w - 1)
  let y_m = clip_coord (y -ℤ size) 0 (img.h - 1)
  let y_p = clip_coord (y +ℤ size) 0 (img.h - 1)
  let x' = clip_coord x 0 (img.w - 1)
  let y' = clip_coord y 0 (img.h - 1)
  row ← paint (x_p + 1 - x_m) (img.w * y' + x_m) 1 0xFF img.bitmap
  both ← paint (y_p + 1 - y_m) (img.w * y_m + x') img.w 0xFF row
  ok (record img { bitmap = both })

module _ (fl : FloatOps) where
  open fl use {F, of_int, to_int, div}

  -- `x /= img->ratio`
  abbrev pub scaled : Bitmap F → ℤ → ℤ
  scaled img x = to_int (div (of_int x) img.ratio)

  -- The loop writes behind the pointer: the first pixel is the one to the right.
  unfoldable pub draw_stripe : Bitmap F → ℤ → ℤ → ℤ → ℕ → Exec (Bitmap F)
  unfolding paint
  draw_stripe img x y x_end color = do
    let x' = clip_coord (scaled img x) 0 (img.w - 1)
    let y' = clip_coord y 0 (img.h - 1)
    let x_end' = clip_coord (scaled img x_end) 0 (img.w - 1)
    painted ← paint (x_end' + 1 - x') (img.w * y' + x' + 1) 1 color img.bitmap
    ok (record img { bitmap = painted })

  -- `while(y1 < y2)` with the rounds left.
  unfoldable pub square_rows : ℕ → ℤ → ℕ → ℤ → Bitmap F → Exec (Bitmap F)
  unfolding draw_stripe
  square_rows zero x1 y1 x2 img = ok img
  square_rows (suc n) x1 y1 x2 img = do
    img' ← draw_stripe img x1 (pos y1) x2 0xFF
    square_rows n x1 (y1 + 1) x2 img'

  unfoldable pub draw_square : Bitmap F → ℤ → ℤ → ℤ → Exec (Bitmap F)
  unfolding square_rows
  draw_square img x y size =
      let x1 = clip_coord (scaled img x -ℤ size) 0 (img.w - 1) in
      let x2 = clip_coord (scaled img x +ℤ size) 0 (img.w - 1) in
      let y1 = clip_coord (y -ℤ size) 0 (img.h - 1) in
      let y2 = clip_coord (y +ℤ size) 0 (img.h - 1) in
      square_rows (y2 - y1) (pos x1) y1 (pos x2) img

  -- The two sides, row by row, by their pointers `ptr` and `ptr + xd`.
  unfoldable pub sides : ℕ → ℕ → ℕ → ℕ → List ℕ → Exec (List ℕ)
  sides zero left right w bitmap = ok bitmap
  sides (suc n) left right w bitmap =
      if ltb left (length bitmap) && ltb right (length bitmap)
      then sides n (left + w) (right + w) w (set (set bitmap left 0xFF) right 0xFF)
      else fault

  unfoldable pub draw_empty_square : Bitmap F → ℤ → ℤ → ℤ → ℤ → Exec (Bitmap F)
  unfolding draw_stripe sides
  draw_empty_square img x1 y1 x2 y2 = do
    let x1' = clip_coord (scaled img x1) 0 (img.w - 1)
    let x2' = clip_coord (scaled img x2) 0 (img.w - 1)
    let y1' = clip_coord y1 0 (img.h - 1)
    let y2' = clip_coord y2 0 (img.h - 1)
    top ← draw_stripe img (pos x1') (pos y1') (pos x2') 0xFF
    bottom ← draw_stripe top (pos x1') (pos y2') (pos x2') 0xFF
    done ← sides (y2' + 1 - y1') (img.w * y1' + x1') (img.w * y1' + x2') img.w bottom.bitmap
    ok (record bottom { bitmap = done })
