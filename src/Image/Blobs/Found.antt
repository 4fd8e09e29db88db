-- ===== src/Image/Blobs/Found.antt =====
-- The end of a frame: every preblob is looked at once, handed over if it is within the limits, and freed.
use linux_track.Prelude.{
  ℕ, zero, suc, ◌-◌, ◌≤◌, ◌<◌, ◌≡◌, refl, ap, ◌∙◌, Bool, true, false, not, ◌||◌, ◌&&◌, Option, none,
  some, List, [], ◌∷◌, map, ltb, ◌==◌, if◌then◌else◌, length, inl, inr, Option-cases, arith,
}
use linux_track.Prelude.Exec.{Returns}
use linux_track.Prelude.Cells.{live, free}
use linux_track.Prelude.Float.{FloatOps}
use linux_track.Image.Draw.{Bitmap}
use linux_track.Image.Tracker.{Preblob, Tracker, no_line, finished}
use linux_track.Image.Tracker.Inv.{Inv, has, count}
use linux_track.Image.Tracker.Store.{is_live, after_current, after_next}
use linux_track.Image.Tracker.Line.{Swept, store_preblobs-Swept, Inv-no_line}
use linux_track.Image.Blobs.{BlobList, blob_of, free_all, start_of, hand_over, stripes_to_blobs}
use linux_track.Image.Blobs.Taken.{fill, within, Gathered, none_left, one_more, Fits}
use linux_track.Image.Blobs.Loop.{blob_loop-Filled}

module _ {F : Type 0} where
  pub live-free :
      (c : List (Option (Preblob F))) (q p : ℕ)
      → live (free c q) p ≡ (if q == p then none else live c p)
  unfolding live
  live-free [] q p = ground arith
  live-free (x ∷ c) zero zero = refl
  live-free (x ∷ c) zero (suc p) = ground arith
  live-free (x ∷ c) (suc q) zero = ground arith
  live-free (x ∷ c) (suc q) (suc p) = ground (arith, live-free c q p)

  live-free_all :
      (c : List (Option (Preblob F))) (ps : List ℕ) (p : ℕ)
      → live (free_all c ps) p ≡ (if ltb 0 (count p ps) then none else live c p)
  live-free_all c [] p = refl
  live-free_all c (q ∷ ps) p = ground (arith, live-free_all (free c q) ps p, live-free c q p)

  -- These preblobs live at these addresses.
  pub data AllAt (cells : List (Option (Preblob F))) : List ℕ → List (Preblob F) → Type 0 where
    nil : AllAt cells [] []
    cons :
        (p : ℕ) (ps : List ℕ) (b : Preblob F) (bs : List (Preblob F))
        → live cells p ≡ some b
        → AllAt cells ps bs
        → AllAt cells (p ∷ ps) (b ∷ bs)

  read_all :
      (cells : List (Option (Preblob F))) (ps : List ℕ)
      → ((p : ℕ) → 0 < count p ps → is_live (live cells p) ≡ true)
      → (bs : List (Preblob F)) × AllAt cells ps bs
  read_all cells [] lives = ([], nil)
  read_all cells (p ∷ ps) lives = elim (Option-cases (live cells p)) [
    | inl e ↦ absurd (ground (arith, lives p))
    | inr (b, e) ↦
        let (bs, rest) = read_all cells ps (λ q k. lives q (ground arith)) in
        (b ∷ bs, cons p ps b bs e rest)
  ]

  swept_marks :
      (c h : Bool) (b : Preblob F)
      → (added matched : Bool) × (after_next true h
            (some (if c then record b { added = true } else b))
          ≡ some (record b { added = added; matched = matched }))
  swept_marks true true b = (true, false, refl)
  swept_marks true false b = (true, b.matched, refl)
  swept_marks false true b = (b.added || true, false, refl)
  swept_marks false false b = (b.added, b.matched, refl)

  -- Sweeping the lists of ranges changes marks only.
  Swept-Gathered :
      (t t' : Tracker F) (ps : List ℕ) (bs : List (Preblob F))
      → Swept true t t'
      → AllAt t.cells ps bs
      → Gathered t'.cells ps bs
  Swept-Gathered t t' [] _ w nil = none_left
  Swept-Gathered t t' (_ ∷ _) _ w (cons p ps b bs e all) =
      let (added, matched, same) =
        swept_marks (has p t.current && (not b.matched && not b.added)) (has p t.next) b in
      one_more p ps b bs added matched
        (w.cells p
          ∙ ap (λ o. after_next true (has p t.next) (after_current (has p t.current) o)) e
          ∙ same)
        (Swept-Gathered t t' ps bs w all)

  Swept-once :
      (t t' : Tracker F)
      → Inv t
      → Swept true t t'
      → (p : ℕ) → count p (finished t'.preblobs) ≡ (if is_live (live t.cells p) then 1 else 0)
  Swept-once t t' v w p =
      let v' = Inv-no_line v no_line w in ground (arith, w.cells p, v'.listed p, v'.owned p)

  Swept-freed :
      (t t' : Tracker F) (ps : List ℕ)
      → Swept true t t'
      → ((p : ℕ) → count p ps ≡ (if is_live (live t.cells p) then 1 else 0))
      → (p : ℕ) → live (free_all t'.cells ps) p ≡ none
  Swept-freed t t' ps w once p = ground (arith, live-free_all t'.cells ps p, w.cells p, once p)

  freed-Inv :
      (t : Tracker F)
      → t.current ≡ []
      → t.next ≡ []
      → t.preblobs ≡ none
      → ((p : ℕ) → live t.cells p ≡ none)
      → Inv t
  freed-Inv t c n d freed = record {
    current_open = λ p h. ground (arith, c);
    next_ready = λ p h. ground (arith, n);
    ready_next = λ p h. ground (arith, freed p);
    listed = λ p. ground (arith, d, freed p);
    owned = λ p h. ground (arith, freed p);
  }

  -- Each preblob that lives is at one of these addresses, once.
  pub record Everything (t : Tracker F) (ps : List ℕ) (bs : List (Preblob F)) : Type 0 where
    pub once : (p : ℕ) → count p ps ≡ (if is_live (live t.cells p) then 1 else 0)
    pub at : AllAt t.cells ps bs

module _ (fl : FloatOps) (from_middle : ℕ → fl.F → fl.F) where
  open fl use {F}

  -- The result of a frame with these preblobs: the blobs of those within the limits are in front, in
  -- order and as many as are asked for, and what is behind them in the array is as before; no preblob is left.
  pub record Handed (num min max : ℕ) (img : Bitmap F) (blt : BlobList F) (bs : List (Preblob F))
      (answer : Bool × BlobList F × List ℕ × Tracker F) : Type 0 where
    pub result : answer.0 ≡ true
    pub blobs :
        answer.1.blobs ≡ fill num (map (blob_of fl from_middle img) (within min max bs)) blt.blobs
    pub num_blobs :
        answer.1.num_blobs
        ≡ (if ltb num (length (within min max bs)) then num else length (within min max bs))
    pub bitmap : length answer.2 ≡ length img.bitmap
    pub freed : (p : ℕ) → live answer.3.cells p ≡ none
    pub valid : Inv answer.3

  hand_over-Handed :
      (drawn : Bool) (num min max : ℕ) (blt : BlobList F) (img : Bitmap F) (t t' : Tracker F)
      (ps : List ℕ) (bs : List (Preblob F))
      → Swept true t t'
      → ((p : ℕ) → count p ps ≡ (if is_live (live t.cells p) then 1 else 0))
      → AllAt t.cells ps bs
      → num ≤ length blt.blobs
      → Fits drawn img
      → Returns (Handed num min max img blt bs) (
          hand_over fl from_middle drawn num blt min max img
            (some ps)
            (record t' { current = []; next = []; current_vline = no_line }))
  unfolding hand_over
  hand_over-Handed drawn num min max blt img t t' ps bs w once all room fits =
      let (s, run, f) =
        blob_loop-Filled fl from_middle drawn num blt.expected_blobs min max img fits t'.cells ps bs
          [] blt.blobs (start_of fl from_middle blt img) (Swept-Gathered t t' ps bs w all)
          (record { blobs = refl; written = λ k. refl; valid = refl; bitmap = refl })
          (omega arith) in
      let asked : num - 0 ≡ num = omega arith in
      let valid : s.valid ≡ length (within min max bs) = omega (arith, f.valid) in
      let freed = Swept-freed t t' ps w once in
      rw run (record {
        result = refl;
        blobs =
            f.blobs
            ∙ ap (λ n. fill n (map (blob_of fl from_middle img) (within min max bs)) blt.blobs)
                asked;
        num_blobs = ap (λ n. if ltb num n then num else n) valid;
        bitmap = f.bitmap;
        freed = freed;
        valid = freed-Inv _ refl refl refl freed;
      })

  -- At the end of a frame, in a valid state, with room in the array for the blobs asked for and an image whose bitmap, if
  -- it has one, fits its size, `ltr_int_stripes_to_blobs` returns 0 without a fault. There
  -- is a list of all preblobs of the frame, each once, whose members within the limits are the blobs that are handed over,
  -- up to the number asked for; all preblobs are freed, and the state is valid for the next
  -- frame.
  pub stripes_to_blobs-Handed :
      (drawn : Bool) (num min max : ℕ) (blt : BlobList F) (img : Bitmap F) (t : Tracker F)
      → Inv t
      → num ≤ length blt.blobs
      → Fits drawn img
      → (ps : List ℕ) × (bs : List (Preblob F)) × Everything t ps bs
        × Returns
            (Handed num min max img blt bs)
            (stripes_to_blobs fl from_middle drawn num blt min max img t)
  unfolding stripes_to_blobs hand_over
  stripes_to_blobs-Handed drawn num min max blt img t v room fits =
      let (t', run, w) = store_preblobs-Swept true t v in
      let ps = finished t'.preblobs in
      let once = Swept-once t t' v w in
      let (bs, all) = read_all t.cells ps (λ p k. ground (arith, once p)) in
      (
        ps,
        bs,
        record { once = once; at = all },
        rw (run, w.stored)
            (hand_over-Handed drawn num min max blt img t t' ps bs w once all room fits),
      )
