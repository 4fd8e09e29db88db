-- ===== src/Hw/Firmware.antt =====
-- src/tir_hw.c: the firmware, its file, its checksum and its way to the device. Memory does not run
-- out.
pub mod Load
pub mod Upload
use linux_track.Prelude.{
  ℕ, zero, suc, ◌+◌, ◌-◌, ◌^◌, Bool, true, false, Option, some, none, List, [], ◌∷◌, ◌++◌,
  if◌then◌else◌, ltb, leb, ◌==◌, length, take, drop, u8, u32, ◌<<<◌, bit_and, bit_xor,
}
use linux_track.Prelude.Exec.{Exec, ok, fault, out_of_fuel}
use linux_track.Hw.State.{GzRead, chunk, gz_error, Env, Hw, M, ◌>>=◌, ◌>>◌, pure, exhausted, send}
use linux_track.Hw.Packets.{fpga_init_packet}

abbrev fw_size_increment : ℕ
fw_size_increment = 50000

-- `firmware_t`; the size is the length.
pub record Firmware : Type 0 where
  pub firmware : List ℕ
  pub cksum : ℕ

-- The loop of `cksum_firmware` over the bytes, on `unsigned int`.
unfoldable pub cksum_from : ℕ → List ℕ → ℕ
cksum_from cksum [] = cksum
cksum_from cksum (byte ∷ bytes) = cksum_from (bit_xor (u32 (cksum + byte)) (u32 (byte <<< 4))) bytes

unfoldable pub cksum_firmware : List ℕ → ℕ
unfolding cksum_from
cksum_firmware bytes = bit_and (cksum_from 0 bytes) 0xffff

-- `cksum_firmware` reads as many bytes as were counted.
abbrev pub counted : ℕ → List ℕ → Exec (List ℕ)
counted size tbuf = if size == length tbuf then ok tbuf else fault

-- The loop of `load_firmware`: `tsize` bytes are allocated and `size` counted as read, which are those
-- in `tbuf` until a read fails: its -1 is added as an `unsigned int`. A read that does not fit is a
-- fault. After the last read of the list the file has no more bytes.
unfoldable pub read_firmware : List GzRead → ℕ → ℕ → List ℕ → Exec (List ℕ)
read_firmware [] tsize size tbuf = counted size tbuf
read_firmware (gz_error ∷ reads) tsize size tbuf =
    read_firmware reads (u32 (tsize + fw_size_increment)) (size + (2 ^ 32 - 1)) tbuf
read_firmware (chunk bytes ∷ reads) tsize size tbuf =
    let tbuf' = tbuf ++ bytes in
    let size' = size + length bytes in
    let more = read_firmware reads (u32 (tsize + fw_size_increment)) size' tbuf' in
    if leb size' tsize
    then (if ltb (length bytes) fw_size_increment then counted size' tbuf' else more)
    else fault

abbrev with_cksum : Exec (List ℕ) → Exec (Option Firmware)
with_cksum (ok tbuf) = ok (some (record { firmware = tbuf; cksum = cksum_firmware tbuf }))
with_cksum fault = fault
with_cksum out_of_fuel = out_of_fuel

unfoldable pub load_firmware : Option (List GzRead) → Exec (Option Firmware)
load_firmware none = ok none
load_firmware (some reads) = with_cksum (read_firmware reads fw_size_increment 0 [])

-- The next packet of `upload_firmware`: at most 60 bytes behind a kind and their number.
abbrev pub next_len : List ℕ → ℕ
next_len fw = if ltb 60 (length fw) then 60 else length fw

module _ (env : Env) where
  -- The loop of `upload_firmware` over the bytes left, on fuel.
  unfoldable pub upload_chunks : ℕ → List ℕ → M Bool
  unfolding send
  upload_chunks zero fw = exhausted
  upload_chunks (suc n) [] = pure true
  upload_chunks (suc n) (b ∷ bytes) = do
    let fw = b ∷ bytes
    let len = next_len fw
    fine ← send env (0x1c ∷ u8 len ∷ take len fw)
    let rest = upload_chunks n (drop len fw)
    if fine then rest else pure false

  unfoldable pub upload_firmware : ℕ → List ℕ → M Bool
  unfolding upload_chunks send
  upload_firmware fuel fw = do
    fine ← send env fpga_init_packet
    if fine then upload_chunks fuel fw else pure false
