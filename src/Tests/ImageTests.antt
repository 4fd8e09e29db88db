-- ===== src/Tests/ImageTests.antt =====
-- Tests and examples for src/image_process.c.
use linux_track.Prelude.{
  ℕ, ◌≤◌, ◌<◌, none, [], ◌∷◌, ◌≡◌, arith, pos_part, pos, ◌+◌, ◌-◌, ◌*◌, ◌/◌, replicate, refl,
  length, negsuc, ◌==◌, if◌then◌else◌, true, false, some, zero, suc, List, u32,
}
use linux_track.Prelude.Exec.{Exec, ok, fault, Returns, ◌>>=◌}
use linux_track.Prelude.Float.{FloatOps}
use linux_track.Prelude.Cells.{live, live-nil}
use linux_track.Image.Tracker.{Preblob, Range, Tracker, prepared}
use linux_track.Image.Add.{add_stripe, add_stripes, column, add_stripe-Tracked, add_stripe-past_end}
use linux_track.Image.Tracker.Inv.{Inv, prepared-Inv}
use linux_track.Image.Blobs.{BlobList, stripes_to_blobs}
use linux_track.Image.Blobs.Found.{Everything, Handed, stripes_to_blobs-Handed}
use linux_track.Image.Frame.{add_stripes-stripes_to_blobs}
use linux_track.Image.Blobs.Points.{sum_points}
use linux_track.Image.Draw.{Bitmap, clip_coord, draw_cross}
use linux_track.Image.Draw.Bounds.{draw_cross-within}
use linux_track.Image.Scan.{scan_columns, to_stripes}
use linux_track.Image.Scan.Runs.{Runs}
use linux_track.Image.Scan.Columns.{Holds, InImage, scan_columns-Runs}
use linux_track.Stripe.{Stripe}
use linux_track.Image.Tracker.Place.{Tracked}

-- Whole numbers for floats.
abbrev whole : FloatOps
whole = record {
  F = ℕ;
  of_uint = λ n. n;
  of_int = pos_part;
  to_int = pos;
  add = λ a b. a + b;
  sub = λ a b. a - b;
  mul = λ a b. a * b;
  div = λ a b. a / b;
}

abbrev run : ℕ → ℕ → ℕ → Stripe
run y a b = record { vline = y; hstart = a; hstop = b; sum_x = 0; sum = 1; points = b + 1 - a }

-- Three columns, two rows, all dark.
abbrev dark : Bitmap ℕ
dark = record { bitmap = replicate 6 0; w = 3; h = 2; ratio = 1 }

-- The first stripe of a frame whose arrays have room for a width of ten.
add_stripe-Tracked_example :
    (bitmap' : List ℕ) × (t' : Tracker ℕ) × (add_stripe whole true (run 0 0 1) (dark, prepared 10)
      ≡ ok (record dark { bitmap = bitmap' }, t'))
    × (length bitmap' ≡ 6)
    × Tracked whole (run 0 0 1) (prepared 10) t'
unfolding clip_coord
add_stripe-Tracked_example =
    add_stripe-Tracked whole true (run 0 0 1) dark (prepared 10) (prepared-Inv 10) (omega arith)
      (λ d. omega arith)

-- A stripe in the corner at the end.
add_stripe-past_end_example : add_stripe whole true (run 1 1 2) (dark, prepared 10) ≡ fault
add_stripe-past_end_example =
    add_stripe-past_end whole (run 1 1 2) dark (prepared 10) 2 (omega arith) (omega arith)
      (omega arith) refl refl refl (omega arith)

-- A cross whose middle is outside of the picture.
draw_cross-within_example :
    (img' : Bitmap ℕ) × (draw_cross dark (pos 9) (negsuc 0) (pos 1) ≡ ok img')
    × (length img'.bitmap ≡ 6)
draw_cross-within_example =
    draw_cross-within dark (pos 9) (negsuc 0) (pos 1) (omega arith) (omega arith) refl

-- A run up to the edge of the first row.
abbrev picture : Bitmap ℕ
picture = record { bitmap = 0 ∷ 5 ∷ 7 ∷ 0 ∷ 0 ∷ 0 ∷ []; w = 3; h = 2; ratio = 1 }

first_row : Holds picture.bitmap 0 (0 ∷ 5 ∷ 7 ∷ [])
first_row zero v e = e
first_row (suc zero) v e = e
first_row (suc (suc zero)) v e = e
first_row (suc (suc (suc j))) v e = absurd (ground arith)

at_its_column : (x : ℕ) → x < 3 → column whole picture x ≤ x
unfolding clip_coord
at_its_column zero h = ground arith
at_its_column (suc zero) h = ground arith
at_its_column (suc (suc zero)) h = ground arith
at_its_column (suc (suc (suc x))) h = absurd (omega arith)

first_row-InImage : InImage whole picture 0
first_row-InImage = record {
  row = omega arith;
  width = omega arith;
  height = omega arith;
  narrow = at_its_column;
}

scan_columns-Runs_example :
    (ss : List Stripe) × Runs 0 0 (0 ∷ 5 ∷ 7 ∷ []) ss
    × (scan_columns whole 3 0 0 none (picture, prepared 3)
        ≡ add_stripes whole true ss (picture, prepared 3))
scan_columns-Runs_example =
    scan_columns-Runs whole picture 0 (0 ∷ 5 ∷ 7 ∷ []) (prepared 3) first_row-InImage refl first_row

-- Its drawing lights the first pixel of the second row, which is dark, and which is then handed over
-- as a stripe of one point too.
abbrev spilled : Exec (Bitmap ℕ × Tracker ℕ) → List ℕ × List Range
spilled (ok (img, t)) = (img.bitmap, t.next)
spilled _ = ([], [])

to_stripes-spilled :
    spilled (to_stripes whole picture (prepared 3))
    ≡ (0 ∷ 5 ∷ 0x80 ∷ 0x80 ∷ 0x80 ∷ 0 ∷ [], record { x1 = 0; x2 = 0; pb = 0 } ∷ [])
unfolding to_stripes live clip_coord
to_stripes-spilled = refl

-- A preblob of 4 points, which a range of the last line points to.
abbrev gathered : Tracker ℕ
gathered = record {
  cells =
      some (record { sum_x = 80; sum_y = 40; sum = 20; points = 4; added = false; matched = true })
      ∷ [];
  current = [];
  next = record { x1 = 2; x2 = 5; pb = 0 } ∷ [];
  capacity = 4;
  current_vline = 2;
  preblobs = none;
}

live-gathered :
    (p : ℕ)
    → live gathered.cells p ≡ (
        if p == 0
        then some
            (record { sum_x = 80; sum_y = 40; sum = 20; points = 4; added = false; matched = true })
        else none)
unfolding live
live-gathered zero = refl
live-gathered (suc p) = ground arith

gathered-Inv : Inv gathered
gathered-Inv = record {
  current_open = λ p h. cc;
  next_ready = λ p h. ground (arith, live-gathered p);
  ready_next = λ p h. ground (arith, live-gathered p);
  listed = λ p. ground (arith, live-gathered p);
  owned = λ p h. ground (arith, live-gathered p);
}

abbrev room_for_two : BlobList ℕ
room_for_two = record {
  num_blobs = 0;
  expected_blobs = 3;
  blobs = replicate 2 (record { x = 0; y = 0; score = 0 });
}

stripes_to_blobs-Handed_example :
    (ps : List ℕ) × (bs : List (Preblob ℕ)) × Everything gathered ps bs
    × Returns
        (Handed whole (λ n v. n - v) 2 3 9 dark room_for_two bs)
        (stripes_to_blobs whole (λ n v. n - v) true 2 room_for_two 3 9 dark gathered)
stripes_to_blobs-Handed_example =
    stripes_to_blobs-Handed whole (λ n v. n - v) true 2 3 9 room_for_two dark gathered gathered-Inv
      (omega arith) (λ k. (omega arith, omega arith, refl))

-- Its centre is at (4, 2), and it has 4 points.
handed_over :
    (stripes_to_blobs whole (λ n v. n - v) false 2 room_for_two 3 9 dark gathered)
    ≡ ok (
      true,
      record room_for_two {
        num_blobs = 1;
        blobs = record { x = 0; y = 0; score = 4 } ∷ record { x = 0; y = 0; score = 0 } ∷ [];
      },
      replicate 6 0,
      record gathered { cells = none ∷ []; next = []; current_vline = 4294967294 },
    )
unfolding stripes_to_blobs live
handed_over = refl

-- Two stripes of one line of a fresh tracker, in a picture of three columns.
add_stripes-stripes_to_blobs_example :
    (bs : List (Preblob ℕ)) × (u32 (sum_points bs) ≡ 2)
    × Returns (Handed whole (λ n v. n - v) 2 3 9 dark room_for_two bs) (
        add_stripes whole true (run 0 0 0 ∷ run 0 2 2 ∷ []) (dark, prepared 10)
        >>= (λ st. stripes_to_blobs whole (λ n v. n - v) true 2 room_for_two 3 9 st.0 st.1))
unfolding clip_coord
add_stripes-stripes_to_blobs_example =
    add_stripes-stripes_to_blobs whole (λ n v. n - v) (run 0 0 0 ∷ run 0 2 2 ∷ []) (prepared 10)
      true 2 3 9 room_for_two dark (prepared-Inv 10) live-nil (omega arith, (omega arith, tt))
      (omega arith) (λ k. (omega arith, omega arith, refl))
      ((λ d. omega arith), ((λ d. omega arith), tt))
