-- ===== src/Image/Frame.antt =====
-- src/image_process.c: a whole frame, from its first stripe to its blobs.
use linux_track.Prelude.{
  ℕ, ◌+◌, ◌≤◌, ◌<◌, ◌≡◌, refl, ◌∙◌, Bool, true, none, List, [], ◌∷◌, ◌==◌, if◌then◌else◌, length,
  u32, arith,
}
use linux_track.Prelude.Exec.{ok, ◌>>=◌, Returns, Returns-mono}
use linux_track.Prelude.Cells.{live, total, total-none}
use linux_track.Prelude.Float.{FloatOps}
use linux_track.Stripe.{Stripe}
use linux_track.Image.Draw.{Bitmap}
use linux_track.Image.Tracker.{Preblob, Tracker}
use linux_track.Image.Tracker.Inv.{Inv}
use linux_track.Image.Tracker.Store.{points}
use linux_track.Image.Add.{add_stripes, last_drawn, add_stripe-Tracked}
use linux_track.Image.Blobs.{BlobList, stripes_to_blobs}
use linux_track.Image.Blobs.Taken.{Fits}
use linux_track.Image.Blobs.Found.{Handed, stripes_to_blobs-Handed}
use linux_track.Image.Blobs.Points.{sum_points, sum_points-AllAt}

-- With `n` stripes on the line so far, no line gets more stripes than the arrays have room for.
abbrev pub HasRoom : ℕ → ℕ → ℕ → List Stripe → Type 0
HasRoom capacity line n [] = Unit {0}
HasRoom capacity line n (s ∷ ss) =
    let before = if line == s.vline then n else 0 in
    (before < capacity) × HasRoom capacity s.vline (before + 1) ss

abbrev pub stripe_points : List Stripe → ℕ
stripe_points [] = 0
stripe_points (s ∷ ss) = s.points + stripe_points ss

module _ (fl : FloatOps) where
  open fl use {F}

  -- The drawing of each stripe, if there is a bitmap, ends within it.
  abbrev pub Inside : Bool → Bitmap F → List Stripe → Type 0
  Inside drawn img [] = Unit {0}
  Inside drawn img (s ∷ ss) =
      (drawn ≡ true → last_drawn fl img s < length img.bitmap) × Inside drawn img ss

  Inside-resized :
      (drawn : Bool) (img : Bitmap F) (bitmap' : List ℕ) (ss : List Stripe)
      → length bitmap' ≡ length img.bitmap
      → Inside drawn img ss
      → Inside drawn (record img { bitmap = bitmap' }) ss
  Inside-resized drawn img bitmap' [] same inside = tt
  Inside-resized drawn img bitmap' (s ∷ ss) same (here, later) =
      ((λ d. rw same (here d)), Inside-resized drawn img bitmap' ss same later)

  add_stripes-Inv :
      (drawn : Bool) (ss : List Stripe) (img : Bitmap F) (t : Tracker F) (line n capacity : ℕ)
      → Inv t
      → t.current_vline ≡ line
      → length t.next ≡ n
      → t.capacity ≡ capacity
      → HasRoom capacity line n ss
      → Inside drawn img ss
      → (bitmap' : List ℕ) × (t' : Tracker F) × (add_stripes fl drawn ss (img, t)
          ≡ ok (record img { bitmap = bitmap' }, t'))
        × (length bitmap' ≡ length img.bitmap)
        × Inv t'
        × (u32 (total points t'.cells) ≡ u32 (total points t.cells + stripe_points ss))
  unfolding add_stripes
  add_stripes-Inv drawn [] img t line n capacity v l k c room inside =
      (img.bitmap, t, refl, refl, v, ground arith)
  add_stripes-Inv drawn (s ∷ ss) img t line n capacity v l k c (here, later) (ends, inside) =
      let (b1, t1, run1, len1, one) =
        add_stripe-Tracked fl drawn s img t v (rw (l, k, c) here) ends in
      let (b', t', run, len, v', sum) =
        add_stripes-Inv drawn ss (record img { bitmap = b1 }) t1 s.vline
          ((if line == s.vline then n else 0) + 1) capacity one.valid one.current_vline
          (one.next ∙ rw (l, k) refl) (one.capacity ∙ c) later
          (Inside-resized drawn img b1 ss len1 inside) in
      (b', t', rw run1 run, len ∙ len1, v', omega (arith, sum, one.adds_points))

  Handed-resized :
      (from_middle : ℕ → F → F) (num min max : ℕ) (img : Bitmap F) (bitmap' : List ℕ)
      (blt : BlobList F) (bs : List (Preblob F)) (answer : Bool × BlobList F × List ℕ × Tracker F)
      → length bitmap' ≡ length img.bitmap
      → Handed fl from_middle num min max (record img { bitmap = bitmap' }) blt bs answer
      → Handed fl from_middle num min max img blt bs answer
  Handed-resized from_middle num min max img bitmap' blt bs answer same r = record {
    result = r.result;
    blobs = r.blobs;
    num_blobs = r.num_blobs;
    bitmap = r.bitmap ∙ same;
    freed = r.freed;
    valid = r.valid;
  }

  -- From a valid state without preblobs, as at the start and after each frame, with room for the
  -- stripes of each line, and, if there is a bitmap, where it fits the image and the drawing of each
  -- stripe ends within it: adding the stripes of a frame, which draws them, and then calling
  -- `ltr_int_stripes_to_blobs`, with room for the blobs asked for, never faults. There is a list of
  -- preblobs that have together, modulo 2^32, exactly the points of the stripes; those within the
  -- limits are handed over as blobs, up to the number asked for, and the state afterwards is valid
  -- and without preblobs again.
  pub add_stripes-stripes_to_blobs :
      (from_middle : ℕ → F → F) (ss : List Stripe) (t : Tracker F) (drawn : Bool) (num min max : ℕ)
      (blt : BlobList F) (img : Bitmap F)
      → Inv t
      → ((p : ℕ) → live t.cells p ≡ none)
      → HasRoom t.capacity t.current_vline (length t.next) ss
      → num ≤ length blt.blobs
      → Fits drawn img
      → Inside drawn img ss
      → (bs : List (Preblob F)) × (u32 (sum_points bs) ≡ u32 (stripe_points ss))
        × Returns (Handed fl from_middle num min max img blt bs) (
            add_stripes fl drawn ss (img, t)
            >>= (λ st. stripes_to_blobs fl from_middle drawn num blt min max st.0 st.1))
  add_stripes-stripes_to_blobs from_middle ss t drawn num min max blt img v empty room asked fits
        inside =
      let (b', t', run, len, v', sum) =
        add_stripes-Inv drawn ss img t t.current_vline (length t.next) t.capacity v refl refl refl
          room inside in
      let img' : Bitmap F = record img { bitmap = b' } in
      let (ps, bs, all, handed) =
        stripes_to_blobs-Handed fl from_middle drawn num min max blt img' t' v' asked
          (λ d. ((fits d).0, (fits d).1, len ∙ (fits d).2)) in
      let found = sum_points-AllAt t'.cells ps bs all.once all.at in
      (
        bs,
        omega (arith, found, sum, total-none points t.cells empty),
        rw run (
            Returns-mono (Handed fl from_middle num min max img' blt bs)
              (Handed fl from_middle num min max img blt bs)
              (stripes_to_blobs fl from_middle drawn num blt min max img' t') handed
              (λ answer r. Handed-resized from_middle num min max img b' blt bs answer len r)),
      )
