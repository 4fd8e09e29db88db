-- ===== src/Image/Blobs.antt =====
-- src/image_process.c: the end of a frame, where preblobs become the blobs handed over (`ltr_int_stripes_to_blobs`).
-- The log and the picture that is written for debugging are left out.
pub mod Taken
pub mod Loop
pub mod Found
pub mod Points
use linux_track.Prelude.{
  ℕ, zero, suc, ◌+◌, ◌-◌, ◌^◌, ◌/◌, Bool, true, false, ◌||◌, Option, none, some, List, [], ◌∷◌, ltb,
  if◌then◌else◌, length, set, slt32, ℤ, pos, negsuc,
}
use linux_track.Prelude.Exec.{Exec, ok, fault, ◌>>=◌}
use linux_track.Prelude.Cells.{load, free}
use linux_track.Prelude.Float.{FloatOps}
use linux_track.Comm.{Blob}
use linux_track.Image.Draw.{Bitmap, signed32, draw_cross}
use linux_track.Image.Tracker.{Preblob, Tracker, no_line, store_preblobs}

-- `struct bloblist_type`
pub record BlobList (F : Type 0) : Type 0 where
  pub num_blobs : ℕ
  pub expected_blobs : ℕ
  pub blobs : List (Blob F)

-- `(pb->points < min_pts) || (pb->points > max_pts)`, on `int`
abbrev pub out_of_limits : {F : Type 0} → ℕ → ℕ → Preblob F → Bool
out_of_limits min_pts max_pts pb = slt32 pb.points min_pts || slt32 max_pts pb.points

-- The variables of the loop: `counter`, `valid`, the array of blobs and the bitmap.
pub record Progress (F : Type 0) : Type 0 where
  pub counter : ℕ
  pub valid : ℕ
  pub blobs : List (Blob F)
  pub bitmap : List ℕ

-- `ltr_int_free_list(preblobs, true)`: each preblob is freed.
abbrev pub free_all : {F : Type 0} → List (Option (Preblob F)) → List ℕ → List (Option (Preblob F))
free_all cells [] = cells
free_all cells (p ∷ ps) = free_all (free cells p) ps

-- `from_middle n v` is `((n - 1) / 2.0) - v`, computed as `double` and rounded.
module _ (fl : FloatOps) (from_middle : ℕ → fl.F → fl.F) where
  open fl use {F, of_int, to_int, div}

  abbrev pub center_x : Preblob F → F
  center_x pb = div pb.sum_x (of_int (signed32 pb.sum))

  abbrev pub center_y : Preblob F → F
  center_y pb = div pb.sum_y (of_int (signed32 pb.sum))

  abbrev pub blob_of : Bitmap F → Preblob F → Blob F
  blob_of img pb = record {
    x = from_middle img.w (div (center_x pb) img.ratio);
    y = from_middle img.h (center_y pb);
    score = pb.points;
  }

  -- The cross, where there is a bitmap; it is larger for the blobs that are expected.
  unfoldable pub mark_blob : Bool → ℕ → ℕ → Bitmap F → Preblob F → List ℕ → Exec (List ℕ)
  unfolding draw_cross
  mark_blob false counter expected_blobs img pb bitmap = ok bitmap
  mark_blob true counter expected_blobs img pb bitmap = do
    let size = if ltb counter expected_blobs then img.w / 50 else img.w / 100
    img' ←
        draw_cross (record img { bitmap = bitmap }) (to_int (div (center_x pb) img.ratio))
          (to_int (center_y pb)) (pos size)
    ok img'.bitmap

  -- `blt->blobs[counter]`, a fault behind the array.
  unfoldable pub write_blob : Bool → ℕ → Bitmap F → Preblob F → Progress F → Exec (Progress F)
  unfolding mark_blob
  write_blob drawn expected_blobs img pb s =
      if ltb s.counter (length s.blobs)
      then (do
        bitmap' ← mark_blob drawn s.counter expected_blobs img pb s.bitmap
        ok (record s { blobs = set s.blobs s.counter (blob_of img pb); bitmap = bitmap' }))
      else fault

  -- What the loop does with a preblob within the limits.
  unfoldable pub take_preblob : Bool → ℕ → ℕ → Bitmap F → Preblob F → Progress F → Exec (Progress F)
  unfolding write_blob
  take_preblob drawn num_blobs expected_blobs img pb s = do
    let s' = record s { valid = s.valid + 1 }
    s'' ← if ltb s.counter num_blobs then write_blob drawn expected_blobs img pb s' else ok s'
    ok (record s'' { counter = s''.counter + 1 })

  unfoldable pub blob_loop :
      Bool
      → ℕ
      → ℕ
      → ℕ
      → ℕ
      → Bitmap F
      → List (Option (Preblob F))
      → List ℕ
      → Progress F
      → Exec (Progress F)
  unfolding take_preblob
  blob_loop drawn num_blobs expected_blobs min_pts max_pts img cells [] s = ok s
  blob_loop drawn num_blobs expected_blobs min_pts max_pts img cells (p ∷ ps) s = do
    pb ← load cells p
    s' ←
        if out_of_limits min_pts max_pts pb
        then ok s
        else take_preblob drawn num_blobs expected_blobs img pb s
    blob_loop drawn num_blobs expected_blobs min_pts max_pts img cells ps s'

  abbrev pub start_of : BlobList F → Bitmap F → Progress F
  start_of blt img = record { counter = 0; valid = 0; blobs = blt.blobs; bitmap = img.bitmap }

  -- From the test of `preblobs` on. The result is whether it is 0, as opposed to -1; `drawn` is whether
  -- the image has a bitmap.
  unfoldable pub hand_over :
      Bool
      → ℕ
      → BlobList F
      → ℕ
      → ℕ
      → Bitmap F
      → Option (List ℕ)
      → Tracker F
      → Exec (Bool × BlobList F × List ℕ × Tracker F)
  unfolding blob_loop
  hand_over drawn num_blobs blt min_pts max_pts img none t = ok (false, blt, img.bitmap, t)
  hand_over drawn num_blobs blt min_pts max_pts img (some done) t = do
    s ←
        blob_loop drawn num_blobs blt.expected_blobs min_pts max_pts img t.cells done
          (start_of blt img)
    ok (
      true,
      record blt {
        blobs = s.blobs;
        num_blobs = if ltb num_blobs s.valid then num_blobs else s.valid;
      },
      s.bitmap,
      record t { cells = free_all t.cells done; preblobs = none },
    )

  unfoldable pub stripes_to_blobs :
      Bool
      → ℕ
      → BlobList F
      → ℕ
      → ℕ
      → Bitmap F
      → Tracker F
      → Exec (Bool × BlobList F × List ℕ × Tracker F)
  unfolding store_preblobs hand_over
  stripes_to_blobs drawn num_blobs blt min_pts max_pts img t = do
    t' ← store_preblobs true t
    hand_over drawn num_blobs blt min_pts max_pts img t'.preblobs
        (record t' { current = []; next = []; current_vline = no_line })
