-- ===== src/Image/Add.antt =====
-- src/image_process.c: `ltr_int_add_stripe` as a whole, with the drawing of the stripe.
use linux_track.Prelude.{
  ℕ, ◌+◌, ◌-◌, ◌*◌, ◌^◌, ◌<◌, ◌≤◌, pos, ◌≡◌, refl, zero, suc, Bool, true, false, List, [], ◌∷◌, ltb,
  set, if◌then◌else◌, ◌==◌, length, get_elem?, get_elem?-set, arith, inl, inr, Bool-cases,
}
use linux_track.Prelude.Exec.{Exec, ok, fault, ◌>>=◌, WhenOk, WhenOk-mono, WhenOk-bind}
use linux_track.Prelude.Float.{FloatOps}
use linux_track.Stripe.{Stripe}
use linux_track.Image.Draw.{Bitmap, signed32, clip_coord, scaled, paint, draw_stripe}
use linux_track.Image.Draw.Bounds.{paint-within, draw_stripe-past_end}
use linux_track.Image.Tracker.{Tracker, track_stripe}
use linux_track.Image.Tracker.Inv.{Inv}
use linux_track.Image.Tracker.Place.{Tracked, track_stripe-Tracked}

module _ (fl : FloatOps) where
  open fl use {F}

  -- The stripe is drawn where the image has a bitmap.
  abbrev pub draw_added : Bool → Stripe → Bitmap F → Exec (Bitmap F)
  draw_added drawn s img =
      if drawn
      then draw_stripe fl img (signed32 s.hstart) (signed32 s.vline) (signed32 s.hstop) 0x80
      else ok img

  unfoldable pub add_stripe : Bool → Stripe → Bitmap F × Tracker F → Exec (Bitmap F × Tracker F)
  unfolding track_stripe draw_stripe
  add_stripe drawn s (img, t) = do
    img' ← draw_added drawn s img
    t' ← track_stripe fl s t
    ok (img', t')

  -- Stripes that are added one after the other.
  unfoldable pub add_stripes :
      Bool → List Stripe → Bitmap F × Tracker F → Exec (Bitmap F × Tracker F)
  unfolding add_stripe
  add_stripes drawn [] st = ok st
  add_stripes drawn (s ∷ ss) st = add_stripe drawn s st >>= add_stripes drawn ss

-- The pixels behind the `n` from `ptr` on.
abbrev pub Kept : ℕ → ℕ → List ℕ → List ℕ → Type 0
Kept n ptr old new = (j : ℕ) → ((k : ℕ) → k < n → ptr + k < j) → get_elem? new j ≡ get_elem? old j

Kept-suc :
    (n ptr color : ℕ) (old new : List ℕ)
    → ptr < length old
    → Kept n (ptr + 1) (set old ptr color) new
    → Kept (suc n) ptr old new
Kept-suc n ptr color old new here rest j h =
    ground (arith, h 0, get_elem?-set old ptr color j, rest j (λ k l. omega (arith, h (suc k))))

paint-Kept :
    (n ptr color : ℕ) (bitmap : List ℕ) → WhenOk (Kept n ptr bitmap) (paint n ptr 1 color bitmap)
unfolding paint
paint-Kept zero ptr color bitmap = λ j h. refl
paint-Kept (suc n) ptr color bitmap = elim (Bool-cases (ltb ptr (length bitmap))) [
  | inl e ↦ rw e (
      WhenOk-mono (Kept n (ptr + 1) (set bitmap ptr color)) (Kept (suc n) ptr bitmap)
        (paint n (ptr + 1) 1 color (set bitmap ptr color))
        (paint-Kept n (ptr + 1) color (set bitmap ptr color))
        (λ new rest. Kept-suc n ptr color bitmap new (ground arith) rest))
  | inr e ↦ rw e tt
]

module _ (fl : FloatOps) where
  open fl use {F}

  abbrev pub column : Bitmap F → ℕ → ℕ
  column img x = clip_coord (scaled fl img (signed32 x)) 0 (img.w - 1)

  -- The offset of the last pixel that is drawn for a stripe.
  abbrev pub last_drawn : Bitmap F → Stripe → ℕ
  last_drawn img s = img.w * clip_coord (signed32 s.vline) 0 (img.h - 1) + column img s.hstop + 1

  -- Only the bitmap is changed, and nothing behind that pixel.
  abbrev pub Drawn : Bitmap F → Stripe → Bitmap F → Type 0
  Drawn img s img' =
      (bitmap' : List ℕ) × (img' ≡ record img { bitmap = bitmap' })
      × ((j : ℕ) → last_drawn img s < j → get_elem? bitmap' j ≡ get_elem? img.bitmap j)

  pub draw_added-Drawn :
      (img : Bitmap F) (s : Stripe) → WhenOk (Drawn img s) (draw_added fl true s img)
  unfolding draw_stripe
  draw_added-Drawn img s =
      let n = column img s.hstop + 1 - column img s.hstart in
      let ptr = img.w * clip_coord (signed32 s.vline) 0 (img.h - 1) + column img s.hstart + 1 in
      WhenOk-bind (Kept n ptr img.bitmap) (Drawn img s) (paint n ptr 1 0x80 img.bitmap)
        (λ painted. ok (record img { bitmap = painted })) (paint-Kept n ptr 0x80 img.bitmap)
        (λ painted kept. (painted, refl, λ j h. kept j (λ k l. omega arith)))

  draw_added-ok :
      (drawn : Bool) (s : Stripe) (img : Bitmap F)
      → (drawn ≡ true → last_drawn img s < length img.bitmap)
      → (bitmap' : List ℕ) × (draw_added fl drawn s img ≡ ok (record img { bitmap = bitmap' }))
        × (length bitmap' ≡ length img.bitmap)
  unfolding draw_stripe
  draw_added-ok false s img inside = (img.bitmap, refl, refl)
  draw_added-ok true s img inside =
      let n = column img s.hstop + 1 - column img s.hstart in
      let ptr = img.w * clip_coord (signed32 s.vline) 0 (img.h - 1) + column img s.hstart + 1 in
      let (painted, run, len) =
        paint-within n ptr 1 0x80 img.bitmap (λ k l. omega (arith, inside refl)) in
      (painted, rw run refl, len)

  -- In a valid state with room for one more range on the stripe's line, and where the drawing of the
  -- stripe, if there is a bitmap, ends within it, `ltr_int_add_stripe` never reads a freed preblob or
  -- leaves an array or the bitmap, which keeps its size. Afterwards the state is valid: every range
  -- points to a preblob that is still gathered, and each finished one is listed exactly once. The
  -- points of all preblobs together have grown by those of the stripe (as `int`, so up to wrapping),
  -- whatever was merged; and the line has one range more.
  pub add_stripe-Tracked :
      (drawn : Bool) (s : Stripe) (img : Bitmap F) (t : Tracker F)
      → Inv t
      → (if t.current_vline == s.vline then length t.next else 0) < t.capacity
      → (drawn ≡ true → last_drawn img s < length img.bitmap)
      → (bitmap' : List ℕ) × (t' : Tracker F) × (add_stripe fl drawn s (img, t)
          ≡ ok (record img { bitmap = bitmap' }, t'))
        × (length bitmap' ≡ length img.bitmap)
        × Tracked fl s t t'
  unfolding add_stripe
  add_stripe-Tracked drawn s img t v room inside =
      let (painted, run1, len) = draw_added-ok drawn s img inside in
      let (t', run2, tracked) = track_stripe-Tracked fl s t v room in
      (painted, t', rw (run1, run2) refl, len, tracked)

  -- On the last row of a bitmap of w * h pixels, of fewer than 2^31 rows, `ltr_int_add_stripe` draws
  -- a stripe that reaches the right edge past the end of the bitmap, in whatever state.
  pub add_stripe-past_end :
      (s : Stripe) (img : Bitmap F) (t : Tracker F) (n : ℕ)
      → 0 < img.w
      → 0 < img.h
      → img.h < 2 ^ 31
      → length img.bitmap ≡ img.w * img.h
      → s.vline ≡ img.h - 1
      → scaled fl img (signed32 s.hstop) ≡ pos n
      → img.w - 1 ≤ n
      → add_stripe fl true s (img, t) ≡ fault
  unfolding add_stripe
  add_stripe-past_end s img t n wide high small len last reaches far =
      let row : signed32 s.vline ≡ pos s.vline =
        (let below : ltb s.vline (2 ^ 31) ≡ true = ground arith in rw below refl) in
      rw
        (
          row,
          draw_stripe-past_end fl img (signed32 s.hstart) (signed32 s.hstop) s.vline 0x80 n wide
              high len last reaches far,
        )
        refl
