-- ===== src/Hw/Firmware/Load.antt =====
-- Reading the firmware's file.
use linux_track.Prelude.{
  ℕ, ◌+◌, ◌-◌, ◌^◌, ◌≤◌, ◌<◌, ◌≡◌, refl, sym, ap, ◌∙◌, true, false, some, List, [], ◌∷◌, ◌++◌, ltb,
  leb, ◌==◌, length, u32, inl, inr, Bool-cases, arith, length-append, append_assoc, append-nil,
}
use linux_track.Prelude.Exec.{ok, fault}
use linux_track.Hw.State.{GzRead, chunk, gz_error}
use linux_track.Hw.Firmware.{cksum_firmware, counted, read_firmware, load_firmware}

-- The reads give these bytes: full ones, and a short one or the end of the file.
pub data Gives : List GzRead → List ℕ → Type 0 where
  end_of_file : Gives [] []
  short :
      (bytes : List ℕ) (later : List GzRead)
      → length bytes < 50000
      → Gives (chunk bytes ∷ later) bytes
  full :
      (bytes rest : List ℕ) (reads : List GzRead)
      → length bytes ≡ 50000
      → Gives reads rest
      → Gives (chunk bytes ∷ reads) (bytes ++ rest)

counted-all : (size : ℕ) (tbuf : List ℕ) → size ≡ length tbuf → counted size tbuf ≡ ok tbuf
counted-all size tbuf e = let t : (size == length tbuf) ≡ true = ground arith in rw t refl

read_firmware-Gives :
    (reads : List GzRead) (bytes : List ℕ) (tsize size : ℕ) (tbuf : List ℕ)
    → Gives reads bytes
    → tsize ≡ size + 50000
    → size ≡ length tbuf
    → size + length bytes + 50000 < 2 ^ 32
    → read_firmware reads tsize size tbuf ≡ ok (tbuf ++ bytes)
unfolding read_firmware
read_firmware-Gives [] _ tsize size tbuf end_of_file t s k =
    counted-all size tbuf s ∙ ap ok (sym (append-nil tbuf))
read_firmware-Gives (_ ∷ _) _ tsize size tbuf (short bytes later h) t s k =
    let fits : leb (size + length bytes) tsize ≡ true = ground arith in
    let last : ltb (length bytes) 50000 ≡ true = ground arith in
    rw (fits, last)
      (counted-all (size + length bytes) (tbuf ++ bytes) (omega (arith, length-append tbuf bytes)))
read_firmware-Gives (_ ∷ _) _ tsize size tbuf (full bytes rest reads h g) t s k =
    let fits : leb (size + length bytes) tsize ≡ true = ground arith in
    let last : ltb (length bytes) 50000 ≡ false = ground arith in
    let whole = length-append bytes rest in
    rw (fits, last)
      (read_firmware-Gives reads rest (u32 (tsize + 50000)) (size + length bytes) (tbuf ++ bytes) g
          (omega (arith, whole)) (omega (arith, length-append tbuf bytes)) (omega (arith, whole))
        ∙ ap ok (append_assoc tbuf bytes rest))

-- A file of less than 2^32 - 50000 bytes that is read in full chunks and a short one is loaded byte for
-- byte, within the memory that was allocated, with the checksum of its bytes.
pub load_firmware-Gives :
    (reads : List GzRead) (bytes : List ℕ)
    → Gives reads bytes
    → length bytes + 50000 < 2 ^ 32
    → load_firmware (some reads)
      ≡ ok (some (record { firmware = bytes; cksum = cksum_firmware bytes }))
unfolding load_firmware
load_firmware-Gives reads bytes g k =
    rw (read_firmware-Gives reads bytes 50000 0 [] g refl refl (omega arith)) refl

counted-wrong : (size : ℕ) (tbuf : List ℕ) → length tbuf < size → counted size tbuf ≡ fault
counted-wrong size tbuf e = let t : (size == length tbuf) ≡ false = ground arith in rw t refl

read_firmware-after_error :
    (reads : List GzRead) (tsize size : ℕ) (tbuf : List ℕ)
    → tsize < 2 ^ 32
    → length tbuf + (2 ^ 32 - 1) ≤ size
    → read_firmware reads tsize size tbuf ≡ fault
unfolding read_firmware
read_firmware-after_error [] tsize size tbuf t s = counted-wrong size tbuf (omega arith)
read_firmware-after_error (gz_error ∷ reads) tsize size tbuf t s =
    read_firmware-after_error reads (u32 (tsize + 50000)) (size + (2 ^ 32 - 1)) tbuf (omega arith)
      (omega arith)
read_firmware-after_error (chunk bytes ∷ reads) tsize size tbuf t s =
    let size' = size + length bytes in
    let tbuf' = tbuf ++ bytes in
    let grown = length-append tbuf bytes in
    elim (Bool-cases (leb size' tsize)) [
      | inr past ↦ rw past refl
      | inl fits ↦
          let none_read : length bytes ≡ 0 = ground arith in
          let last : ltb (length bytes) 50000 ≡ true = ground arith in
          rw (fits, last) (counted-wrong size' tbuf' (omega (arith, grown)))
    ]

-- The first reads of a file, each full, and a read that fails after them.
pub data Fails : List GzRead → Type 0 where
  at_once : (later : List GzRead) → Fails (gz_error ∷ later)
  after_full :
      (bytes : List ℕ) (reads : List GzRead)
      → length bytes ≡ 50000
      → Fails reads
      → Fails (chunk bytes ∷ reads)

read_firmware-Fails :
    (reads : List GzRead) (tsize size : ℕ) (tbuf : List ℕ)
    → Fails reads
    → size ≡ length tbuf
    → read_firmware reads tsize size tbuf ≡ fault
unfolding read_firmware
read_firmware-Fails [] tsize size tbuf f s = elim f [ ]
read_firmware-Fails (_ ∷ _) tsize size tbuf (at_once later) s =
    read_firmware-after_error later (u32 (tsize + 50000)) (size + (2 ^ 32 - 1)) tbuf (omega arith)
      (omega arith)
read_firmware-Fails (_ ∷ _) tsize size tbuf (after_full bytes reads h f) s =
    let size' = size + length bytes in
    let last : ltb (length bytes) 50000 ≡ false = ground arith in
    let rest =
      read_firmware-Fails reads (u32 (tsize + 50000)) size' (tbuf ++ bytes) f
        (omega (arith, length-append tbuf bytes)) in
    elim (Bool-cases (leb size' tsize)) [
      | inr past ↦ rw past refl
      | inl fits ↦ rw (fits, last) rest
    ]

-- A read of the file that fails is not seen as such: it is counted as 2^32 - 1 bytes, and the loading goes on until it
-- leaves the memory that was allocated.
load_firmware-Fails : (reads : List GzRead) → Fails reads → load_firmware (some reads) ≡ fault
unfolding load_firmware
load_firmware-Fails reads f = rw (read_firmware-Fails reads 50000 0 [] f refl) refl
