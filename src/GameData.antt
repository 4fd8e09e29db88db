-- ===== src/GameData.antt =====
-- src/game_data.c: the RC4 cipher of the game list. Reading the file and its XML (a library's) is left
-- out.
pub mod Cipher
use linux_track.Prelude.{
  ℕ, zero, suc, ◌+◌, ◌%◌, ◌^◌, List, [], ◌∷◌, ◌++◌, get_elem?, set, length, replicate, u8, u32,
  bit_xor, ltb, if◌then◌else◌,
}
use linux_track.Prelude.Exec.{Exec, ok, fault, ◌>>=◌, read_at}

abbrev pub secret_key : List ℕ
secret_key = 0x0e ∷ 0x9a ∷ 0x63 ∷ 0x71 ∷ 0x05 ∷ replicate 11 0

-- The static variables `S`, `rc4_i` and `rc4_j`.
pub record Rc4 : Type 0 where
  pub s : List ℕ
  pub i : ℕ
  pub j : ℕ

-- `data[i] = v`
abbrev pub write_at : List ℕ → ℕ → ℕ → Exec (List ℕ)
write_at xs i v = if ltb i (length xs) then ok (set xs i v) else fault

unfoldable pub swap : List ℕ → ℕ → ℕ → Exec (List ℕ)
swap s i j = do tmp ← read_at s i; b ← read_at s j; s1 ← write_at s i b; write_at s1 j tmp

-- The loop that fills `S`, with the rounds left.
unfoldable pub fill : ℕ → ℕ → List ℕ → Exec (List ℕ)
fill zero i s = ok s
fill (suc n) i s = do s1 ← write_at s i (u8 i); fill n (i + 1) s1

unfoldable pub schedule : ℕ → ℕ → ℕ → List ℕ → ℕ → List ℕ → Exec (List ℕ)
schedule zero i j key len s = ok s
schedule (suc n) i j key len s = do
  a ← read_at s i
  k ← read_at key (i % len)
  let j' = u32 (u32 (j + a) + k) % 256
  s1 ← swap s i j'
  schedule n (i + 1) j' key len s1

unfoldable pub ksa : List ℕ → ℕ → List ℕ → Exec Rc4
unfolding fill schedule
ksa key len s = do
  s1 ← fill 256 0 s
  s2 ← schedule 256 0 0 key len s1
  ok (record { s = s2; i = 0; j = 0 })

unfoldable pub rc4 : Rc4 → Exec (ℕ × Rc4)
rc4 r = do
  let i = u8 (r.i + 1)
  a ← read_at r.s i
  let j = u8 (r.j + a)
  s ← swap r.s i j
  x ← read_at s i
  y ← read_at s j
  k ← read_at s ((x + y) % 256)
  ok (k, record { s = s; i = i; j = j })

-- The loop of `decrypt_file` over the bytes read.
unfoldable pub decode : List ℕ → Rc4 → Exec (List ℕ × Rc4)
unfolding rc4
decode [] r = ok ([], r)
decode (b ∷ bs) r = do (k, r1) ← rc4 r; (rest, r2) ← decode bs r1; ok (bit_xor b k ∷ rest, r2)

unfoldable pub decrypt : List ℕ → List ℕ → Exec (List ℕ)
unfolding ksa decode
decrypt s bytes = do r ← ksa secret_key 16 s; (plain, r1) ← decode bytes r; ok plain
