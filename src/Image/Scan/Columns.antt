-- ===== src/Image/Scan/Columns.antt =====
-- What the loop over the columns of a row hands to `ltr_int_add_stripe`, which draws into the row.
use linux_track.Prelude.{
  ℕ, zero, suc, ◌+◌, ◌-◌, ◌*◌, ◌^◌, ◌<◌, ◌≤◌, ◌≡◌, refl, sym, subst, ◌∙◌, true, false, Option, none,
  some, List, [], ◌∷◌, ◌++◌, ◌==◌, ltb, length, get_elem?, arith,
}
use linux_track.Prelude.Exec.{
  Exec, ok, fault, out_of_fuel, ◌>>=◌, WhenOk, WhenOk-mono, WhenOk-bind, bind-same,
}
use linux_track.Prelude.Float.{FloatOps}
use linux_track.Stripe.{Stripe}
use linux_track.Image.Draw.{Bitmap, signed32, clip_coord}
use linux_track.Image.Draw.Bounds.{clip_coord-inside}
use linux_track.Image.Tracker.{Tracker, track_stripe}
use linux_track.Image.Add.{
  add_stripe, add_stripes, draw_added, column, last_drawn, Drawn, draw_added-Drawn,
}
use linux_track.Image.Scan.{lit, close_stripe, scan_columns}
use linux_track.Image.Scan.Runs.{finished, scan_row, Runs, scan_row-Runs}

WhenOk-any : {A : Type 0} (m : Exec A) → WhenOk (λ _. Unit {0}) m
WhenOk-any (ok a) = tt
WhenOk-any fault = tt
WhenOk-any out_of_fuel = tt

bind-ok_right : {A : Type 0} (m : Exec A) → (m >>= λ a. ok a) ≡ m
bind-ok_right (ok a) = refl
bind-ok_right fault = refl
bind-ok_right out_of_fuel = refl

signed32-inside : (y max : ℕ) → y < max + 1 → y < 2 ^ 31 → clip_coord (signed32 y) 0 max ≡ y
signed32-inside y max h k =
    let small : ltb y (2 ^ 31) ≡ true = ground arith in
    rw small (clip_coord-inside y max (omega arith))

-- Pixels from place `at` on.
abbrev pub Holds : List ℕ → ℕ → List ℕ → Type 0
Holds bitmap at row = (j v : ℕ) → get_elem? row j ≡ some v → get_elem? bitmap (at + j) ≡ some v

Holds-first :
    (bitmap : List ℕ) (at v : ℕ) (row : List ℕ)
    → Holds bitmap at (v ∷ row)
    → get_elem? bitmap at ≡ some v
Holds-first bitmap at v row h =
    let place : at + 0 ≡ at = omega arith in
    subst (λ k. get_elem? bitmap k ≡ some v) place (h 0 v refl)

Holds-later :
    (bitmap : List ℕ) (y x v : ℕ) (row : List ℕ)
    → Holds bitmap (y + x) (v ∷ row)
    → Holds bitmap (y + (x + 1)) row
Holds-later bitmap y x v row h j w e =
    let place : y + x + suc j ≡ y + (x + 1) + j = omega arith in
    subst (λ k. get_elem? bitmap k ≡ some w) place (h (suc j) w e)

module _ (fl : FloatOps) where
  open fl use {F}

  add_stripe-Drawn :
      (img : Bitmap F) (t : Tracker F) (s : Stripe)
      → WhenOk (λ st. Drawn fl img s st.0) (add_stripe fl true s (img, t))
  unfolding add_stripe
  add_stripe-Drawn img t s =
      WhenOk-bind {A = Bitmap F} {B = Bitmap F × Tracker F} (Drawn fl img s)
        (λ st. Drawn fl img s st.0) (draw_added fl true s img)
        (λ img'. track_stripe fl s t >>= λ t'. ok (img', t')) (draw_added-Drawn fl img s)
        (λ img' d.
          WhenOk-bind {A = Tracker F} {B = Bitmap F × Tracker F} (λ t'. Unit {0})
            (λ st. Drawn fl img s st.0) (track_stripe fl s t) (λ t'. ok (img', t'))
            (WhenOk-any (track_stripe fl s t)) (λ t' _. d))

  close_stripe-add_stripes :
      (s : Option Stripe) (ss : List Stripe) (st : Bitmap F × Tracker F)
      → add_stripes fl true (finished s ++ ss) st
        ≡ (close_stripe fl s st >>= add_stripes fl true ss)
  unfolding add_stripes
  close_stripe-add_stripes none ss st = refl
  close_stripe-add_stripes (some s) ss st = refl

  scan_columns-lit :
      (n x y v : ℕ) (s : Option Stripe) (img : Bitmap F) (t : Tracker F)
      → get_elem? img.bitmap (y * img.w + x) ≡ some v
      → (v == 0) ≡ false
      → scan_columns fl (suc n) x y s (img, t)
        ≡ scan_columns fl n (x + 1) y (some (lit y x v s)) (img, t)
  unfolding scan_columns
  scan_columns-lit n x y v s img t pixel lit' = rw pixel (
      subst
        (λ c.
          elim c as (λ _. Exec (Bitmap F × Tracker F)) [
            | true ↦ close_stripe fl s (img, t) >>= scan_columns fl n (x + 1) y none
            | false ↦ scan_columns fl n (x + 1) y (some (lit y x v s)) (img, t)
          ]
          ≡ scan_columns fl n (x + 1) y (some (lit y x v s)) (img, t))
        (sym lit') refl)

  close_stripe-last :
      (s : Option Stripe) (st : Bitmap F × Tracker F)
      → close_stripe fl s st ≡ add_stripes fl true (finished s) st
  unfolding add_stripes
  close_stripe-last none st = refl
  close_stripe-last (some s) st =
      sym (bind-ok_right (add_stripe fl true (record s { points = s.points + 1 }) st))

  module _ (img : Bitmap F) (y : ℕ) where
    -- The row is in the image, whose sizes are `int`, and the ratio does not widen a stripe.
    pub record InImage : Type 0 where
      pub row : y < img.h
      pub width : img.w < 2 ^ 31
      pub height : img.h < 2 ^ 31
      pub narrow : (x : ℕ) → x < img.w → column fl img x ≤ x

    abbrev with_bitmap : List ℕ → Bitmap F
    with_bitmap b = record img { bitmap = b }

    -- An open stripe ends left of column `x` of the row.
    abbrev EndsAt : ℕ → Option Stripe → Type 0
    EndsAt x none = Unit {0}
    EndsAt x (some s) = (s.vline ≡ y) × (s.hstop + 1 ≡ x)

    lit-EndsAt : (x v : ℕ) (s : Option Stripe) → EndsAt x s → EndsAt (x + 1) (some (lit y x v s))
    lit-EndsAt x v none e = (refl, refl)
    lit-EndsAt x v (some s) e = (e.0, refl)

    -- After a stripe of the row is closed before column `x`, which is dark, the pixels behind it are
    -- as they were.
    abbrev StillHolds : ℕ → List ℕ → Bitmap F × Tracker F → Type 0
    StillHolds x vs st = (b : List ℕ) × (st.0 ≡ with_bitmap b) × Holds b (y * img.w + (x + 1)) vs

    last_drawn-row :
        (x : ℕ) (s : Stripe) (b : List ℕ)
        → InImage
        → x < img.w
        → EndsAt x (some s)
        → last_drawn fl (with_bitmap b) s ≤ y * img.w + x
    last_drawn-row x s b i h e =
        let same_row : clip_coord (signed32 s.vline) 0 (img.h - 1) ≡ y =
          rw e.0 (
            signed32-inside y (img.h - 1) (omega (arith, i.row))
              (omega (arith, i.row, i.height))) in
        let left : column fl img s.hstop ≤ s.hstop = i.narrow s.hstop (omega (arith, e.1)) in
        let order : img.w * y ≡ y * img.w = grind arith in
        rw same_row (omega (arith, left, e.1, order))

    close_stripe-StillHolds :
        (vs : List ℕ) (x : ℕ) (s : Option Stripe) (b : List ℕ) (t : Tracker F)
        → InImage
        → x < img.w
        → Holds b (y * img.w + (x + 1)) vs
        → EndsAt x s
        → WhenOk (StillHolds x vs) (close_stripe fl s (with_bitmap b, t))
    close_stripe-StillHolds vs x none b t i h p e = (b, refl, p)
    close_stripe-StillHolds vs x (some s) b t i h p e =
        let closed : Stripe = record s { points = s.points + 1 } in
        WhenOk-mono (λ st. Drawn fl (with_bitmap b) closed st.0) (StillHolds x vs)
          (add_stripe fl true closed (with_bitmap b, t)) (add_stripe-Drawn (with_bitmap b) t closed)
          (λ st (b', same, kept).
            let far = last_drawn-row x closed b i h e in
            (b', same, λ j v q. kept (y * img.w + (x + 1) + j) (omega (arith, far)) ∙ p j v q))

    scan_columns-stripes :
        (vs : List ℕ) (x : ℕ) (s : Option Stripe) (b : List ℕ) (t : Tracker F)
        → InImage
        → x + length vs ≡ img.w
        → Holds b (y * img.w + x) vs
        → EndsAt x s
        → scan_columns fl (length vs) x y s (with_bitmap b, t)
          ≡ add_stripes fl true (scan_row y x vs s) (with_bitmap b, t)
    unfolding scan_columns scan_row add_stripes
    scan_columns-stripes [] x s b t i w h e = close_stripe-last s (with_bitmap b, t)
    scan_columns-stripes (zero ∷ vs) x s b t i w h e =
        let pixel : get_elem? b (y * img.w + x) ≡ some 0 = Holds-first b (y * img.w + x) 0 vs h in
        let later : Holds b (y * img.w + (x + 1)) vs = Holds-later b (y * img.w) x 0 vs h in
        rw pixel (
          bind-same (StillHolds x vs) (close_stripe fl s (with_bitmap b, t))
            (scan_columns fl (length vs) (x + 1) y none)
            (add_stripes fl true (scan_row y (x + 1) vs none))
            (close_stripe-StillHolds vs x s b t i (omega (arith, w)) later e)
            (λ st (b', same, rest).
              subst
                (λ m.
                  scan_columns fl (length vs) (x + 1) y none (m, st.1)
                  ≡ add_stripes fl true (scan_row y (x + 1) vs none) (m, st.1))
                (sym same)
                (scan_columns-stripes vs (x + 1) none b' st.1 i (omega (arith, w)) rest tt))
          ∙ sym (close_stripe-add_stripes s (scan_row y (x + 1) vs none) (with_bitmap b, t)))
    scan_columns-stripes (suc v ∷ vs) x s b t i w h e =
        let pixel : get_elem? b (y * img.w + x) ≡ some (suc v) =
          Holds-first b (y * img.w + x) (suc v) vs h in
        let later : Holds b (y * img.w + (x + 1)) vs = Holds-later b (y * img.w) x (suc v) vs h in
        let lit' : (suc v == 0) ≡ false = ground arith in
        scan_columns-lit (length vs) x y (suc v) s (with_bitmap b) t pixel lit'
        ∙ rw lit' (
            scan_columns-stripes vs (x + 1) (some (lit y x (suc v) s)) b t i (omega (arith, w))
              later (lit-EndsAt x (suc v) s e))

  -- A row is read while the stripes that it has are drawn. If it is in the image, and the ratio does
  -- not widen a stripe, then nothing that is drawn for a stripe of the row is read again in this row:
  -- `ltr_int_to_stripes` hands to `ltr_int_add_stripe` the stripes of the maximal runs of lit pixels
  -- that the row has when it is begun, from left to right, each with its ends, its number of pixels,
  -- their sum and their sum weighted by the distance from its start, both modulo 2 ^ 32.
  pub scan_columns-Runs :
      (img : Bitmap F) (y : ℕ) (row : List ℕ) (t : Tracker F)
      → InImage img y
      → length row ≡ img.w
      → Holds img.bitmap (y * img.w) row
      → (ss : List Stripe) × Runs y 0 row ss
        × (scan_columns fl img.w 0 y none (img, t) ≡ add_stripes fl true ss (img, t))
  scan_columns-Runs img y row t i w h =
      let start : y * img.w + 0 ≡ y * img.w = omega arith in
      (
        scan_row y 0 row none,
        scan_row-Runs y row,
        subst
            (λ n.
              scan_columns fl n 0 y none (img, t)
              ≡ add_stripes fl true (scan_row y 0 row none) (img, t))
            w
            (scan_columns-stripes img y row 0 none img.bitmap t i (omega (arith, w))
              (subst (λ k. Holds img.bitmap k row) (sym start) h) tt),
      )
