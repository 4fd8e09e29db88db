-- ===== src/Frames/Files.antt =====
-- src/ipc_utils.c: files that are mapped into memory, here frames.dat. A file keeps its contents while
-- somebody has it mapped, also after its name is gone; the name stands for one file at most.
use linux_track.Prelude.{
  ℕ, ◌+◌, ◌-◌, ◌^◌, Bool, true, false, ◌&&◌, Option, none, some, ltb, leb, ◌==◌, if◌then◌else◌,
}
use linux_track.Prelude.Exec.{Exec, ok, fault}

-- The words `flag`, `w` and `h` at the start of the file, and the bytes behind them.
pub record Content : Type 0 where
  pub size : ℕ
  pub flag : ℕ
  pub w : ℕ
  pub h : ℕ
  pub pixels : ℕ → ℕ

-- `extra_data`, the bytes of the three words.
abbrev pub extra_data : ℕ
extra_data = 12

abbrev pub empty_file : Content
empty_file = record { size = 0; flag = 0; w = 0; h = 0; pixels = λ p. 0 }

-- `node i` is the file with the number `i`; `named` the file that frames.dat stands for; the numbers
-- from `made` on are unused.
pub record Files : Type 0 where
  pub node : ℕ → Content
  pub named : Option ℕ
  pub made : ℕ

abbrev pub put : ℕ → Content → Files → Files
put i c fs = record fs { node = λ j. if i == j then c else fs.node j }

-- `struct mmap_s` while it maps something: the file, the address and the size.
pub record Mapping : Type 0 where
  pub file : ℕ
  pub base : ℕ
  pub size : ℕ

-- `m->data`: NULL, MAP_FAILED, or a mapping.
pub data Mmap : Type 0 where
  unmapped : Mmap
  map_failed : Mmap
  mapped : Mapping → Mmap

-- What the system answers when the file is opened, its length set and the file mapped.
pub data Answer : Type 0 where
  open_fails : Answer
  truncate_fails : Answer
  mmap_fails : Answer
  maps_at : ℕ → Answer

-- `open(..., O_CREAT)` where the name stands for a file or for none, which then is made empty.
unfoldable pub open_at : Option ℕ → Files → ℕ × Files
open_at (some i) fs = (i, fs)
open_at none fs =
    (fs.made, record (put fs.made empty_file fs) { named = some fs.made; made = fs.made + 1 })

abbrev pub open_file : Files → ℕ × Files
open_file fs = open_at fs.named fs

-- `ftruncate`: bytes past the new end are lost, new ones are 0.
unfoldable pub ftruncate : ℕ → Content → Content
ftruncate n c = record {
  size = n;
  flag = c.flag;
  w = c.w;
  h = c.h;
  pixels = λ p. if ltb (extra_data + p) n then c.pixels p else 0;
}

-- The length is set only where it differs.
unfoldable pub set_length : ℕ → ℕ → Files → Files
set_length size i fs =
    if (fs.node i).size == size then fs else put i (ftruncate size (fs.node i)) fs

-- `ltr_int_mmap_file`, with `m->data` beforehand; a size that is negative as an `int` cannot be set.
-- The result, `m->data` and the files.
unfoldable pub mmap_file : Answer → ℕ → Mmap → Files → Bool × Mmap × Files
mmap_file open_fails size m fs = (false, m, fs)
mmap_file truncate_fails size m fs = (false, m, (open_file fs).1)
mmap_file mmap_fails size m fs =
    let opened = open_file fs in
    if ltb size (2 ^ 31)
    then (false, map_failed, set_length size opened.0 opened.1)
    else (false, m, opened.1)
mmap_file (maps_at base) size m fs =
    let opened = open_file fs in
    if ltb size (2 ^ 31)
    then (
      true,
      mapped (record { file = opened.0; base = base; size = size }),
      set_length size opened.0 opened.1,
    )
    else (false, m, opened.1)

-- `ltr_int_unmap_file`, which also removes the name. After a mapping that failed there is no
-- semaphore to close.
unfoldable pub unmap_file : Mmap → Files → Exec Files
unmap_file unmapped fs = ok fs
unmap_file map_failed fs = fault
unmap_file (mapped m) fs = ok (record fs { named = none })

-- Whether `n` bytes from the pixel `o` on are in the mapping and in the file.
abbrev pub fits : Mapping → Content → ℕ → ℕ → Bool
fits m c o n = leb (extra_data + o + n) m.size && leb (extra_data + o + n) c.size

-- The bytes from the pixel `o` on become `n` bytes of `f`.
unfoldable pub fill : ℕ → ℕ → (ℕ → ℕ) → Content → Content
fill o n f c = record c { pixels = λ p. if leb o p && ltb p (o + n) then f (p - o) else c.pixels p }
