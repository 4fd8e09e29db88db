-- ===== src/Tests/CommTests.antt =====
-- Tests and examples for src/com_proc.c.
use linux_track.Prelude.{ℕ, ◌≡◌, refl, true, false, List, [], ◌∷◌, replicate, arith}
use linux_track.Prelude.Exec.{ok}
use linux_track.Comm.{Blob, Mmap, stop, max_blobs, set_blobs, get_blobs, have_new_blobs}
use linux_track.Comm.Blobs.{get_blobs-set_blobs, fewer, Copied}

abbrev dot : ℕ → Blob ℕ
dot n = record { x = n; y = n; score = n }

abbrev mapped : Mmap ℕ
mapped = record {
  data' = record {
    command = stop;
    threshold = 0;
    min_blob = 0;
    max_blob = 0;
    exp_filt_factor = 0;
    opt_level = 0;
    wii_indication = 0;
    frame_filled = false;
    frame_counter = 4294967295;
    num_blobs = 0;
    blobs = replicate 10 (dot 0);
  };
  held = false;
}

-- The counter wraps around to 0 here.
get_blobs-set_blobs_example :
    (m' : Mmap ℕ) × (m'' : Mmap ℕ) × (got : List (Blob ℕ)) × (seen : ℕ) × (set_blobs
        (dot 1 ∷ dot 2 ∷ dot 3 ∷ [])
        3
        mapped
      ≡ ok m')
    × (get_blobs (replicate 2 (dot 9)) 2 m' ≡ ok (fewer 3 max_blobs, got, seen, m''))
    × Copied (fewer 2 (fewer 3 max_blobs)) (dot 1 ∷ dot 2 ∷ dot 3 ∷ []) (replicate 2 (dot 9)) got
    × ((m'.held ≡ false) × (m''.held ≡ false))
    × ((have_new_blobs m' 4294967295).0 ≡ true)
    × ((have_new_blobs m'' seen).0 ≡ false)
get_blobs-set_blobs_example =
    get_blobs-set_blobs (dot 1 ∷ dot 2 ∷ dot 3 ∷ []) (replicate 2 (dot 9)) 3 2 4294967295 mapped
      (omega arith) (omega arith) refl refl (omega arith)
