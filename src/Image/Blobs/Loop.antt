-- ===== src/Image/Blobs/Loop.antt =====
-- The loop over the finished preblobs writes the blobs within the limits, as many as there is room for.
use linux_track.Prelude.{
  ℕ, zero, suc, ◌+◌, ◌-◌, ◌≤◌, ◌≡◌, refl, sym, ap, ◌∙◌, Bool, true, false, Option, some, List, [],
  ◌∷◌, ◌++◌, map, ltb, length, inl, inr, Bool-cases, arith, append_assoc,
}
use linux_track.Prelude.Exec.{ok}
use linux_track.Prelude.Cells.{live}
use linux_track.Prelude.Float.{FloatOps}
use linux_track.Comm.{Blob}
use linux_track.Image.Draw.{Bitmap}
use linux_track.Image.Tracker.{Preblob}
use linux_track.Image.Blobs.{out_of_limits, Progress, blob_of, blob_loop}
use linux_track.Image.Blobs.Taken.{
  fill, within, Gathered, none_left, one_more, Fits, At, take_preblob-full, take_preblob-room,
}

fill-nil : {A : Type 0} (n : ℕ) (old : List A) → fill n [] old ≡ old
fill-nil zero old = refl
fill-nil (suc n) old = refl

module _ (fl : FloatOps) (from_middle : ℕ → fl.F → fl.F) where
  open fl use {F}

  module _ (drawn : Bool) (num expected min max : ℕ) (img : Bitmap F) (fits : Fits drawn img) where
    abbrev pub Place : List (Blob F) → List (Blob F) → Progress F → Type 0
    Place pre rest s = At fl from_middle drawn num expected min max img fits pre rest s

    -- What the rest of the loop does.
    pub record Filled (bs : List (Preblob F)) (pre rest : List (Blob F)) (s s' : Progress F)
        : Type 0 where
      pub blobs :
          s'.blobs
          ≡ pre
            ++ fill (num - s.counter) (map (blob_of fl from_middle img) (within min max bs)) rest
      pub valid : s'.valid ≡ s.counter + length (within min max bs)
      pub bitmap : length s'.bitmap ≡ length img.bitmap

    -- The loop from some state on.
    abbrev Goes :
        List (Option (Preblob F))
        → List ℕ
        → List (Preblob F)
        → List (Blob F)
        → List (Blob F)
        → Progress F
        → Type 0
    Goes cells ps bs pre rest s =
        (s' : Progress F) × (blob_loop fl from_middle drawn num expected min max img cells ps s
          ≡ ok s')
        × Filled bs pre rest s s'

    next_blob :
        (cells : List (Option (Preblob F))) (p : ℕ) (ps : List ℕ) (b : Preblob F)
        (bs : List (Preblob F)) (added matched : Bool) (pre rest : List (Blob F)) (s : Progress F)
        → ((pre rest : List (Blob F)) (s : Progress F)
            → Place pre rest s
            → num ≤ s.counter + length rest
            → Goes cells ps bs pre rest s)
        → live cells p ≡ some (record b { added = added; matched = matched })
        → Place pre rest s
        → num ≤ s.counter + length rest
        → out_of_limits min max b ≡ false
        → ltb s.counter num ≡ true
        → Goes cells (p ∷ ps) (b ∷ bs) pre rest s
    unfolding blob_loop
    next_blob cells p ps b bs added matched pre [] s again e a room fine less =
        absurd (ground arith)
    next_blob cells p ps b bs added matched pre (r ∷ rest) s again e a room fine less =
        let v = blob_of fl from_middle img b in
        let (s1, run1, a1, up) =
          take_preblob-room fl from_middle drawn num expected min max img fits
            (record b { added = added; matched = matched }) pre r rest s a (ground arith) in
        let (s', run, f) = again (pre ++ (v ∷ [])) rest s1 a1 (omega (arith, up)) in
        let left : num - s.counter ≡ suc (num - s1.counter) = ground arith in
        (
          s',
          rw (e, fine, run1) run,
          record {
            blobs =
                f.blobs
                ∙ append_assoc pre (v ∷ []) (
                    fill (num - s1.counter) (map (blob_of fl from_middle img) (within min max bs))
                      rest)
                ∙ rw (fine, left) refl;
            valid = rw fine (omega (arith, f.valid, up));
            bitmap = f.bitmap;
          },
        )

    pub blob_loop-Filled :
        (cells : List (Option (Preblob F))) (ps : List ℕ) (bs : List (Preblob F))
        (pre rest : List (Blob F)) (s : Progress F)
        → Gathered cells ps bs
        → Place pre rest s
        → num ≤ s.counter + length rest
        → (s' : Progress F) × (blob_loop fl from_middle drawn num expected min max img cells ps s
            ≡ ok s')
          × Filled bs pre rest s s'
    unfolding blob_loop
    blob_loop-Filled cells [] _ pre rest s none_left a room = (
      s,
      refl,
      record {
        blobs = a.blobs ∙ sym (ap (λ l. pre ++ l) (fill-nil (num - s.counter) rest));
        valid = omega (arith, a.valid);
        bitmap = a.bitmap;
      },
    )
    blob_loop-Filled cells (_ ∷ _) _ pre rest s (one_more p ps b bs added matched e g) a room =
        elim (Bool-cases (out_of_limits min max b)) [
          | inl out ↦
              let (s', run, f) = blob_loop-Filled cells ps bs pre rest s g a room in
              (
                s',
                rw (e, out) run,
                record { blobs = rw out f.blobs; valid = rw out f.valid; bitmap = f.bitmap },
              )
          | inr fine ↦ elim (Bool-cases (ltb s.counter num)) [
            | inr full ↦
                let (s1, run1, a1, up) =
                  take_preblob-full fl from_middle drawn num expected min max img fits
                    (record b { added = added; matched = matched }) pre rest s a (ground arith) in
                let (s', run, f) = blob_loop-Filled cells ps bs pre rest s1 g a1 (ground arith) in
                let zero_left : num - s.counter ≡ 0 = ground arith in
                let zero_then : num - s1.counter ≡ 0 = ground arith in
                (
                  s',
                  rw (e, fine, run1) run,
                  record {
                    blobs = f.blobs ∙ rw (fine, zero_left, zero_then) refl;
                    valid = rw fine (omega (arith, f.valid, up));
                    bitmap = f.bitmap;
                  },
                )
            | inl less ↦
                next_blob cells p ps b bs added matched pre rest s
                  (λ pre rest s a room. blob_loop-Filled cells ps bs pre rest s g a room) e a room
                  fine less
          ]
        ]
