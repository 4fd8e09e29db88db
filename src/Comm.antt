-- ===== src/Comm.antt =====
-- src/com_proc.c: the memory that the Wiimote or webcam server shares with the tracking process.
-- Counts and settings are held as numbers; `frame_counter` as the bit pattern of an `int`.
pub mod Settings
pub mod Blobs
use linux_track.Prelude.{
  ℕ, zero, suc, ◌+◌, ◌-◌, ◌^◌, Bool, true, false, not, List, [], ◌∷◌, ltb, leb, ◌==◌, if◌then◌else◌,
  get_elem?, set, u32, length,
}
use linux_track.Prelude.Exec.{Exec, ok, fault, ◌>>=◌, read_at}

pub data Command : Type 0 where
  stop sleep wakeup : Command

-- `struct blob_type` of src/cal.h, over the floating-point type.
pub record Blob (F : Type 0) : Type 0 where
  pub x : F
  pub y : F
  pub score : ℕ

abbrev pub max_blobs : ℕ
max_blobs = 10

-- `comm_struct` without the frame's bytes.
pub record CommStruct (F : Type 0) : Type 0 where
  pub command : Command
  pub threshold : ℕ
  pub min_blob : ℕ
  pub max_blob : ℕ
  pub exp_filt_factor : F
  pub opt_level : ℕ
  pub wii_indication : ℕ
  pub frame_filled : Bool
  pub frame_counter : ℕ
  pub num_blobs : ℕ
  pub blobs : List (Blob F)

-- `struct mmap_s`: the shared data and whether this process holds the file lock on it.
pub record Mmap (F : Type 0) : Type 0 where
  pub data' : CommStruct F
  pub held : Bool

module _ {F : Type 0} where
  abbrev pub lock : Mmap F → Mmap F
  lock m = record m { held = true }

  abbrev pub unlock : Mmap F → Mmap F
  unlock m = record m { held = false }

  -- A getter takes the lock, reads, and gives it back.
  abbrev pub locked_read : {A : Type 0} → (CommStruct F → A) → Mmap F → A × Mmap F
  locked_read read m = let m' = lock m in (read m'.data', unlock m')

  -- A setter takes the lock, writes, and gives it back.
  abbrev pub locked_write : (CommStruct F → CommStruct F) → Mmap F → Mmap F
  locked_write write m = let m' = lock m in unlock (record m' { data' = write m'.data' })

  unfoldable pub get_command : Mmap F → Command × Mmap F
  get_command = locked_read (λ cs. cs.command)

  unfoldable pub set_command : Command → Mmap F → Mmap F
  set_command cmd = locked_write (λ cs. record cs { command = cmd })

  unfoldable pub get_threshold : Mmap F → ℕ × Mmap F
  get_threshold = locked_read (λ cs. cs.threshold)

  unfoldable pub set_threshold : ℕ → Mmap F → Mmap F
  set_threshold thr = locked_write (λ cs. record cs { threshold = thr })

  unfoldable pub get_min_blob : Mmap F → ℕ × Mmap F
  get_min_blob = locked_read (λ cs. cs.min_blob)

  unfoldable pub set_min_blob : ℕ → Mmap F → Mmap F
  set_min_blob pix = locked_write (λ cs. record cs { min_blob = pix })

  unfoldable pub get_max_blob : Mmap F → ℕ × Mmap F
  get_max_blob = locked_read (λ cs. cs.max_blob)

  unfoldable pub set_max_blob : ℕ → Mmap F → Mmap F
  set_max_blob pix = locked_write (λ cs. record cs { max_blob = pix })

  unfoldable pub get_wii_indication : Mmap F → ℕ × Mmap F
  get_wii_indication = locked_read (λ cs. cs.wii_indication)

  unfoldable pub set_wii_indication : ℕ → Mmap F → Mmap F
  set_wii_indication new_ind = locked_write (λ cs. record cs { wii_indication = new_ind })

  unfoldable pub get_opt_level : Mmap F → ℕ × Mmap F
  get_opt_level = locked_read (λ cs. cs.opt_level)

  unfoldable pub set_opt_level : ℕ → Mmap F → Mmap F
  set_opt_level new_opt = locked_write (λ cs. record cs { opt_level = new_opt })

  unfoldable pub get_eff : Mmap F → F × Mmap F
  get_eff = locked_read (λ cs. cs.exp_filt_factor)

  unfoldable pub set_eff : F → Mmap F → Mmap F
  set_eff new_eff = locked_write (λ cs. record cs { exp_filt_factor = new_eff })

  -- The frame flag is read and written without the lock.
  unfoldable pub get_frame_flag : Mmap F → Bool
  get_frame_flag m = m.data'.frame_filled

  unfoldable pub set_frame_flag : Mmap F → Mmap F
  set_frame_flag m = record m { data' = record (m.data') { frame_filled = true } }

  unfoldable pub reset_frame_flag : Mmap F → Mmap F
  reset_frame_flag m = record m { data' = record (m.data') { frame_filled = false } }

  -- `for(i = 0; i < blobs; ++i) to[i] = from[i];` with the rounds left; a fault outside the arrays.
  unfoldable pub copy_blobs : ℕ → ℕ → List (Blob F) → List (Blob F) → Exec (List (Blob F))
  copy_blobs zero i from to = ok to
  copy_blobs (suc n) i from to = do
    b ← read_at from i
    if ltb i (length to) then copy_blobs n (i + 1) from (set to i b) else fault

  unfoldable pub set_blobs : List (Blob F) → ℕ → Mmap F → Exec (Mmap F)
  unfolding copy_blobs
  set_blobs b num_blobs m = do
    let m' = lock m
    let cs = m'.data'
    let blobs = if ltb num_blobs max_blobs then num_blobs else max_blobs
    to ← copy_blobs blobs 0 b cs.blobs
    ok (
        unlock (record m' {
          data' = record cs {
            blobs = to;
            num_blobs = blobs;
            frame_counter = u32 (cs.frame_counter + 1);
          };
        }))

  -- `last_val` is a static variable of the reading process.
  unfoldable pub have_new_blobs : Mmap F → ℕ → Bool × ℕ
  have_new_blobs m last_val =
      let counter = m.data'.frame_counter in
      if not (counter == last_val) then (true, counter) else (false, last_val)

  -- The count returned, the caller's array, and the new `last_val`.
  unfoldable pub get_blobs : List (Blob F) → ℕ → Mmap F → Exec (ℕ × List (Blob F) × ℕ × Mmap F)
  unfolding copy_blobs
  get_blobs b num_blobs m = do
    let m' = lock m
    let cs = m'.data'
    let blobs = if ltb num_blobs cs.num_blobs then num_blobs else cs.num_blobs
    to ← copy_blobs blobs 0 cs.blobs b
    ok (cs.num_blobs, to, cs.frame_counter, unlock m')
