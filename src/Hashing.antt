-- ===== src/Hashing.antt =====
-- src/hashing.c: the search for firmware in other files, as far as it is arithmetic: the rolling
-- checksum and the hexadecimal digests. SHA1 and MD5 are a library's.
pub mod Window
pub mod Hex
use linux_track.Prelude.{
  ℕ, zero, suc, ◌+◌, ◌-◌, ◌*◌, ◌/◌, ◌%◌, ◌^◌, Bool, true, false, not, List, [], ◌∷◌, ◌++◌,
  if◌then◌else◌, ltb, leb, ◌==◌, ◌&&◌, get_elem?, set, length, replicate, u8, u16, ◌<<<◌, bit_and,
  bit_xor,
}
use linux_track.Prelude.Exec.{Exec, ok, fault, ◌>>=◌, read_at}

abbrev pub csum_buf_len : ℕ
csum_buf_len = 32

-- `csum_t`
pub record Csum : Type 0 where
  pub buffer : List ℕ
  pub index : ℕ

unfoldable pub csum_init : Csum
csum_init = record { buffer = replicate csum_buf_len 0; index = 0 }

-- One round of the loop in `csum_compute`, on a `uint16_t`.
unfoldable pub csum_round : ℕ → ℕ → ℕ
csum_round tmp byte =
    let mixed = if not (bit_and tmp 0x8000 == 0) then bit_xor tmp 3 else tmp in
    bit_xor (u16 (mixed <<< 2)) byte

-- The loop with the rounds left.
unfoldable pub csum_loop : ℕ → ℕ → Csum → ℕ → Exec ℕ
csum_loop zero i csum tmp = ok tmp
csum_loop (suc n) i csum tmp = do
  byte ← read_at csum.buffer ((csum.index + i) % csum_buf_len)
  csum_loop n (i + 1) csum (csum_round tmp byte)

unfoldable pub csum_compute : ℕ → Csum → Exec (ℕ × Csum)
unfolding csum_loop
csum_compute byte csum =
    if ltb csum.index (length csum.buffer)
    then (do
      let csum' : Csum = record {
        buffer = set csum.buffer csum.index byte;
        index = (csum.index + 1) % csum_buf_len;
      }
      tmp ← csum_loop csum_buf_len 0 csum' 0
      ok (tmp, csum'))
    else fault

unfoldable pub hash_loop : ℕ → ℕ → List ℕ → ℕ → Csum → Exec ℕ
hash_loop zero i data' res csum = ok res
hash_loop (suc n) i data' res csum = do
  byte ← read_at data' i
  (res', csum') ← csum_compute byte csum
  hash_loop n (i + 1) data' res' csum'

-- The checksum of the first 32 bytes of a file.
unfoldable pub hash_csum : List ℕ → Exec ℕ
unfolding hash_loop
hash_csum data' = hash_loop csum_buf_len 0 data' 0 csum_init

-- Characters are their codes.
abbrev pub between : ℕ → ℕ → ℕ → Bool
between lo hi c = leb lo c && leb c hi

unfoldable pub c_2_h : ℕ → ℕ
c_2_h c =
    let res = if between 48 57 c then c - 48 else 0 in
    let res = if between 65 70 c then c - 65 + 10 else res in
    if between 97 102 c then c - 97 + 10 else res

-- The loop of `from_hex` with the rounds left; a fault outside the string or the array.
unfoldable pub hex_loop : ℕ → ℕ → List ℕ → List ℕ → Exec (List ℕ)
unfolding c_2_h
hex_loop zero p str hex = ok hex
hex_loop (suc n) p str hex = do
  high ← read_at str (2 * p)
  low ← read_at str (2 * p + 1)
  if ltb p (length hex)
      then hex_loop n (p + 1) str (set hex p (u8 (c_2_h high * 16 + c_2_h low)))
      else fault

unfoldable pub from_hex : List ℕ → List ℕ → ℕ → Exec (Bool × List ℕ)
unfolding hex_loop
from_hex str hex len =
    if not (2 * len == length str)
    then ok (false, hex)
    else (do hex' ← hex_loop len 0 str hex; ok (true, hex'))

-- A lower-case digit of `%02x`.
unfoldable pub digit : ℕ → ℕ
digit n = if ltb n 10 then 48 + n else 87 + n

-- The characters that `print_hash` prints for bytes.
unfoldable pub print_hash : List ℕ → List ℕ
print_hash [] = []
print_hash (b ∷ hash) = digit (b / 16) ∷ digit (b % 16) ∷ print_hash hash

unfoldable pub hashes_loop : ℕ → ℕ → List ℕ → List ℕ → Exec Bool
hashes_loop zero i h1 h2 = ok true
hashes_loop (suc n) i h1 h2 = do
  a ← read_at h1 i
  b ← read_at h2 i
  if not (a == b) then ok false else hashes_loop n (i + 1) h1 h2

unfoldable pub hashes_equal : List ℕ → List ℕ → ℕ → Exec Bool
unfolding hashes_loop
hashes_equal h1 h2 length = hashes_loop length 0 h1 h2
