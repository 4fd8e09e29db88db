-- ===== src/Image/Blobs/Taken.antt =====
-- What the loop over the finished preblobs does with one of them.
use linux_track.Prelude.{
  ℕ, zero, suc, ◌+◌, ◌*◌, ◌/◌, pos, ◌≤◌, ◌<◌, ◌≡◌, refl, sym, ap, ◌∙◌, Bool, true, false, Option,
  some, List, [], ◌∷◌, ◌++◌, ltb, if◌then◌else◌, length, set, length-append, arith,
}
use linux_track.Prelude.Exec.{ok}
use linux_track.Prelude.Cells.{live}
use linux_track.Prelude.Float.{FloatOps}
use linux_track.Comm.{Blob}
use linux_track.Image.Draw.{Bitmap}
use linux_track.Image.Draw.Bounds.{draw_cross-within}
use linux_track.Image.Tracker.{Preblob}
use linux_track.Image.Blobs.{
  out_of_limits, center_x, center_y, Progress, blob_of, mark_blob, write_blob, take_preblob,
}

-- The first `n` of the new ones over the front of the old ones.
abbrev pub fill : {A : Type 0} → ℕ → List A → List A → List A
fill zero new old = old
fill (suc n) [] old = old
fill (suc n) (b ∷ new) [] = []
fill (suc n) (b ∷ new) (a ∷ old) = b ∷ fill n new old

module _ {F : Type 0} where
  -- The preblobs whose number of points is within the limits.
  abbrev pub within : ℕ → ℕ → List (Preblob F) → List (Preblob F)
  within min max [] = []
  within min max (b ∷ bs) =
      if out_of_limits min max b then within min max bs else b ∷ within min max bs

  -- These preblobs live at these addresses, up to the marks on them.
  pub data Gathered (cells : List (Option (Preblob F))) : List ℕ → List (Preblob F) → Type 0 where
    none_left : Gathered cells [] []
    one_more :
        (p : ℕ) (ps : List ℕ) (b : Preblob F) (bs : List (Preblob F)) (added matched : Bool)
        → live cells p ≡ some (record b { added = added; matched = matched })
        → Gathered cells ps bs
        → Gathered cells (p ∷ ps) (b ∷ bs)

  -- The bitmap has a pixel for each place of an image that is not empty, if there is a bitmap.
  abbrev pub Fits : Bool → Bitmap F → Type 0
  Fits drawn img = drawn ≡ true → (0 < img.w) × (0 < img.h) × (length img.bitmap ≡ img.w * img.h)

set-append :
    {A : Type 0} (pre : List A) (r v : A) (rest : List A)
    → set (pre ++ (r ∷ rest)) (length pre) v ≡ (pre ++ (v ∷ [])) ++ rest
set-append [] r v rest = refl
set-append (a ∷ pre) r v rest = ap (λ l. a ∷ l) (set-append pre r v rest)

module _ (fl : FloatOps) (from_middle : ℕ → fl.F → fl.F) where
  open fl use {F, to_int, div}

  module _ (drawn : Bool) (num expected min max : ℕ) (img : Bitmap F) (fits : Fits drawn img) where
    mark_blob-within :
        (counter : ℕ) (pb : Preblob F) (bitmap : List ℕ)
        → length bitmap ≡ length img.bitmap
        → (bitmap' : List ℕ) × (mark_blob fl from_middle drawn counter expected img pb bitmap
            ≡ ok bitmap')
          × (length bitmap' ≡ length img.bitmap)
    unfolding mark_blob
    mark_blob-within counter pb bitmap len = go drawn fits
      where
        go :
            (d : Bool)
            → Fits d img
            → (bitmap' : List ℕ) × (mark_blob fl from_middle d counter expected img pb bitmap
                ≡ ok bitmap')
              × (length bitmap' ≡ length img.bitmap)
        go false _ = (bitmap, refl, len)
        go true f =
            let (wide, high, size) = f refl in
            let (img', run, len') =
              draw_cross-within (record img { bitmap = bitmap })
                (to_int (div (center_x fl from_middle pb) img.ratio))
                (to_int (center_y fl from_middle pb))
                (pos (if ltb counter expected then img.w / 50 else img.w / 100)) wide high
                (len ∙ size) in
            (img'.bitmap, rw run refl, len' ∙ sym size)

    -- The loop's state: `pre` is written, `rest` is the array behind it.
    pub record At (pre rest : List (Blob F)) (s : Progress F) : Type 0 where
      pub blobs : s.blobs ≡ pre ++ rest
      pub written : s.counter < num → length pre ≡ s.counter
      pub valid : s.valid ≡ s.counter
      pub bitmap : length s.bitmap ≡ length img.bitmap

    pub take_preblob-full :
        (pb : Preblob F) (pre rest : List (Blob F)) (s : Progress F)
        → At pre rest s
        → num ≤ s.counter
        → (s' : Progress F) × (take_preblob fl from_middle drawn num expected img pb s ≡ ok s')
          × (At pre rest s')
          × (s'.counter ≡ s.counter + 1)
    unfolding take_preblob
    take_preblob-full pb pre rest s a full =
        let test : ltb s.counter num ≡ false = ground arith in
        (
          record s { valid = s.valid + 1; counter = s.counter + 1 },
          rw test refl,
          record {
            blobs = a.blobs;
            written = λ l. absurd (omega arith);
            valid = omega (arith, a.valid);
            bitmap = a.bitmap;
          },
          refl,
        )

    pub take_preblob-room :
        (pb : Preblob F) (pre : List (Blob F)) (r : Blob F) (rest : List (Blob F)) (s : Progress F)
        → At pre (r ∷ rest) s
        → s.counter < num
        → (s' : Progress F) × (take_preblob fl from_middle drawn num expected img pb s ≡ ok s')
          × (At (pre ++ (blob_of fl from_middle img pb ∷ [])) rest s')
          × (s'.counter ≡ s.counter + 1)
    unfolding take_preblob write_blob
    take_preblob-room pb pre r rest s a less =
        let v = blob_of fl from_middle img pb in
        let test : ltb s.counter num ≡ true = ground arith in
        let at_end = a.written less in
        let size : length s.blobs ≡ length pre + suc (length rest) =
          ap length a.blobs ∙ length-append pre (r ∷ rest) in
        let fits_in : ltb s.counter (length s.blobs) ≡ true = ground (arith, size, at_end) in
        let (bitmap', run, len) = mark_blob-within s.counter pb s.bitmap a.bitmap in
        (
          record s {
            valid = s.valid + 1;
            counter = s.counter + 1;
            blobs = set s.blobs s.counter v;
            bitmap = bitmap';
          },
          rw (test, fits_in, run) refl,
          record {
            blobs = rw (a.blobs, sym at_end) (set-append pre r v rest);
            written = λ l. omega (arith, length-append pre (v ∷ []), at_end);
            valid = omega (arith, a.valid);
            bitmap = len;
          },
          refl,
        )
