-- ===== src/Image/Scan.antt =====
-- src/image_process.c: the stripes of a picture. The flag `in_stripe` with the stripe that it guards is an
-- option. The points of a stripe are at most the width, an `int`, so their count does not wrap.
pub mod Runs
pub mod Columns
use linux_track.Prelude.{
  ℕ, zero, suc, ◌+◌, ◌-◌, ◌*◌, ◌^◌, Bool, true, false, Option, some, none, List, [], ◌∷◌, ◌++◌,
  if◌then◌else◌, leb, ◌==◌, length, take, drop, u32,
}
use linux_track.Prelude.Exec.{Exec, ok, ◌>>=◌, read_at}
use linux_track.Prelude.Float.{FloatOps}
use linux_track.Stripe.{Stripe}
use linux_track.Image.Tracker.{Tracker}
use linux_track.Image.Add.{add_stripe}
use linux_track.Image.Draw.{Bitmap}

-- A pixel that is not dark.
abbrev pub lit : ℕ → ℕ → ℕ → Option Stripe → Stripe
lit y x v none = record { vline = y; hstart = x; hstop = x; sum_x = 0; sum = u32 v; points = 0 }
lit y x v (some s) = record s {
  hstop = x;
  sum = u32 (s.sum + v);
  sum_x = u32 (s.sum_x + v * (s.points + 1));
  points = s.points + 1;
}

module _ (fl : FloatOps) where
  open fl use {F}

  -- What a dark pixel or the end of a row does: the open stripe is added, and drawn.
  abbrev pub close_stripe : Option Stripe → Bitmap F × Tracker F → Exec (Bitmap F × Tracker F)
  close_stripe none st = ok st
  close_stripe (some s) st = add_stripe fl true (record s { points = s.points + 1 }) st

  -- The loop over the columns from `x` on with the rounds left, and the end of the row. The pixels are
  -- those of the bitmap as it is by then.
  unfoldable pub scan_columns :
      ℕ → ℕ → ℕ → Option Stripe → Bitmap F × Tracker F → Exec (Bitmap F × Tracker F)
  unfolding add_stripe
  scan_columns zero x y s st = close_stripe s st
  scan_columns (suc n) x y s (img, t) = do
    v ← read_at img.bitmap (y * img.w + x)
    elim (v == 0) [
      | true ↦ close_stripe s (img, t) >>= scan_columns n (x + 1) y none
      | false ↦ scan_columns n (x + 1) y (some (lit y x v s)) (img, t)
    ]

  -- The loop over the rows with the rounds left.
  unfoldable pub scan_rows : ℕ → ℕ → Bitmap F × Tracker F → Exec (Bitmap F × Tracker F)
  unfolding scan_columns
  scan_rows zero y st = ok st
  scan_rows (suc n) y st = scan_columns st.0.w 0 y none st >>= scan_rows n (y + 1)

  unfoldable pub to_stripes : Bitmap F → Tracker F → Exec (Bitmap F × Tracker F)
  unfolding scan_rows
  to_stripes img t = scan_rows img.h 0 (img, t)
