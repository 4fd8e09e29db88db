-- ===== src/Tests/HashTests.antt =====
-- Tests and examples for src/hashing.c and src/game_data.c.
use linux_track.Prelude.{ℕ, ◌≡◌, refl, List, [], ◌∷◌, ◌++◌, length, replicate}
use linux_track.Prelude.Exec.{ok}
use linux_track.Hashing.{Csum, csum_init, hash_csum, print_hash, digit}
use linux_track.GameData.{decrypt}
use linux_track.GameData.Cipher.{AreBytes, xors, decrypt-keystream}
use linux_track.Hashing.Window.{feed, feed-hash_csum}

feed-hash_csum_example :
    (v : ℕ) × (c : Csum) × (feed (9 ∷ 8 ∷ replicate 32 7) 0 csum_init ≡ ok (v, c))
    × (hash_csum (replicate 32 7 ++ (1 ∷ [])) ≡ ok v)
feed-hash_csum_example = feed-hash_csum (9 ∷ 8 ∷ []) (replicate 32 7) (1 ∷ []) refl

-- 254 is printed as "fe".
printed : print_hash (254 ∷ []) ≡ 102 ∷ 101 ∷ []
unfolding print_hash digit
printed = refl

decrypt-keystream_example :
    (ks : List ℕ) × (length ks ≡ 3)
    × AreBytes ks
    × ((bytes : List ℕ) → length bytes ≡ 3 → decrypt (replicate 256 0) bytes ≡ ok (xors bytes ks))
decrypt-keystream_example = decrypt-keystream (replicate 256 0) 3 refl
