-- ===== src/Hashing/Hex.antt =====
-- Digests as hexadecimal digits, and their comparison.
use linux_track.Prelude.{
  ℕ, zero, suc, ◌+◌, ◌*◌, ◌/◌, ◌%◌, ◌≤◌, ◌<◌, ◌≡◌, ◌≢◌, ◌↔◌, refl, sym, ap, subst, ◌∙◌, Bool, true,
  false, some, List, [], ◌∷◌, ◌++◌, ltb, ◌==◌, get_elem?, set, length, arith, length-append,
  append_assoc, u8, Option-cases, get_elem?-ne-none, inl, inr, Bool-cases,
}
use linux_track.Prelude.Exec.{ok}
use linux_track.Hashing.{c_2_h, digit, print_hash, hex_loop, from_hex, hashes_loop, hashes_equal}

c_2_h-digit : (n : ℕ) → n < 16 → c_2_h (digit n) ≡ n
unfolding c_2_h digit
c_2_h-digit n h = ground arith

byte_of-digits : (b : ℕ) → b < 256 → u8 (c_2_h (digit (b / 16)) * 16 + c_2_h (digit (b % 16))) ≡ b
byte_of-digits b h =
    rw (c_2_h-digit (b / 16) (omega arith), c_2_h-digit (b % 16) (omega arith)) (omega arith)

abbrev pub Bytes : List ℕ → Type 0
Bytes [] = Unit {0}
Bytes (b ∷ bs) = (b < 256) × Bytes bs

get_elem?-behind :
    (pre : List ℕ) (n x : ℕ) (rest : List ℕ)
    → length pre ≡ n
    → get_elem? (pre ++ (x ∷ rest)) n ≡ some x
get_elem?-behind [] zero x rest e = refl
get_elem?-behind [] (suc n) x rest e = absurd (omega arith)
get_elem?-behind (a ∷ pre) zero x rest e = absurd (omega arith)
get_elem?-behind (a ∷ pre) (suc n) x rest e = get_elem?-behind pre n x rest (omega arith)

set-behind :
    (pre : List ℕ) (n o v : ℕ) (rest : List ℕ)
    → length pre ≡ n
    → set (pre ++ (o ∷ rest)) n v ≡ pre ++ (v ∷ rest)
set-behind [] zero o v rest e = refl
set-behind [] (suc n) o v rest e = absurd (omega arith)
set-behind (a ∷ pre) zero o v rest e = absurd (omega arith)
set-behind (a ∷ pre) (suc n) o v rest e = ap (λ l. a ∷ l) (set-behind pre n o v rest (omega arith))

hex_loop-print_hash :
    (bs : List ℕ) (p : ℕ) (pre done old : List ℕ)
    → Bytes bs
    → length pre ≡ 2 * p
    → length done ≡ p
    → length old ≡ length bs
    → hex_loop (length bs) p (pre ++ print_hash bs) (done ++ old) ≡ ok (done ++ bs)
unfolding hex_loop print_hash
hex_loop-print_hash [] p pre done [] w e f g = refl
hex_loop-print_hash [] p pre done (o ∷ old) w e f g = absurd (omega arith)
hex_loop-print_hash (b ∷ bs) p pre done [] w e f g = absurd (omega arith)
hex_loop-print_hash (b ∷ bs) p pre done (o ∷ old) w e f g =
    let hi = digit (b / 16) in
    let lo = digit (b % 16) in
    let first : get_elem? (pre ++ (hi ∷ lo ∷ print_hash bs)) (2 * p) ≡ some hi =
      get_elem?-behind pre (2 * p) hi (lo ∷ print_hash bs) e in
    let second : get_elem? (pre ++ (hi ∷ lo ∷ print_hash bs)) (2 * p + 1) ≡ some lo =
      subst (λ l. get_elem? l (2 * p + 1) ≡ some lo)
        (append_assoc pre (hi ∷ []) (lo ∷ print_hash bs))
        (get_elem?-behind (pre ++ (hi ∷ [])) (2 * p + 1) lo (print_hash bs)
          (omega (arith, length-append pre (hi ∷ [])))) in
    let fits : ltb p (length (done ++ (o ∷ old))) ≡ true =
      ground (arith, length-append done (o ∷ old)) in
    let rest =
      hex_loop-print_hash bs (p + 1) (pre ++ (hi ∷ lo ∷ [])) (done ++ (b ∷ [])) old w.1
        (omega (arith, length-append pre (hi ∷ lo ∷ [])))
        (omega (arith, length-append done (b ∷ []))) (omega arith) in
    rw (first, second, fits, byte_of-digits b w.0, set-behind done p o b old f)
      (subst (λ l. hex_loop (length bs) (p + 1) l (done ++ (b ∷ old)) ≡ ok (done ++ (b ∷ bs)))
        (append_assoc pre (hi ∷ lo ∷ []) (print_hash bs))
        (subst
          (λ l.
            hex_loop (length bs) (p + 1) ((pre ++ (hi ∷ lo ∷ [])) ++ print_hash bs) l
            ≡ ok (done ++ (b ∷ bs)))
          (append_assoc done (b ∷ []) old) (rest ∙ ap ok (append_assoc done (b ∷ []) bs))))

length-print_hash : (bs : List ℕ) → length (print_hash bs) ≡ 2 * length bs
unfolding print_hash
length-print_hash [] = refl
length-print_hash (b ∷ bs) = omega (arith, length-print_hash bs)

-- A digest as `print_hash` prints it is read back by `from_hex`, into an array of its length. A string of
-- any other length is refused, and the array stays as it was.
from_hex-print_hash :
    (bs hex : List ℕ)
    → Bytes bs
    → length hex ≡ length bs
    → (from_hex (print_hash bs) hex (length bs) ≡ ok (true, bs))
      × ((str : List ℕ)
          → length str ≢ 2 * length bs
          → from_hex str hex (length bs) ≡ ok (false, hex))
unfolding from_hex
from_hex-print_hash bs hex w e =
    let even : (2 * length bs == length (print_hash bs)) ≡ true =
      ground (arith, length-print_hash bs) in
    (
      rw (even, hex_loop-print_hash bs 0 [] [] hex w (omega arith) refl e) refl,
      λ str ne. let odd : (2 * length bs == length str) ≡ false = ground arith in rw odd refl,
    )

same_at :
    (i j : ℕ) (h1 h2 : List ℕ)
    → get_elem? h1 i ≡ get_elem? h2 i
    → (i ≢ j → get_elem? h1 j ≡ get_elem? h2 j)
    → get_elem? h1 j ≡ get_elem? h2 j
same_at i j h1 h2 e f = elim (Bool-cases (i == j)) [
  | inl s ↦ let q : i ≡ j = ground arith in subst (λ k. get_elem? h1 k ≡ get_elem? h2 k) q e
  | inr s ↦ f (λ q. ground arith)
]

hashes_loop-decides :
    (n i : ℕ) (h1 h2 : List ℕ)
    → i + n ≤ length h1
    → i + n ≤ length h2
    → (r : Bool) × (hashes_loop n i h1 h2 ≡ ok r)
      × ((r ≡ true) ↔ ((j : ℕ) → i ≤ j → j < i + n → get_elem? h1 j ≡ get_elem? h2 j))
unfolding hashes_loop
hashes_loop-decides zero i h1 h2 a b = (true, refl, ((λ e j u v. absurd (omega arith)), λ f. refl))
hashes_loop-decides (suc n) i h1 h2 a b = elim (Option-cases (get_elem? h1 i)) [
  | inl e ↦ absurd (get_elem?-ne-none h1 i (omega arith) e)
  | inr (x, e) ↦ elim (Option-cases (get_elem? h2 i)) [
    | inl f ↦ absurd (get_elem?-ne-none h2 i (omega arith) f)
    | inr (y, f) ↦
        let (r, run, iff) = hashes_loop-decides n (i + 1) h1 h2 (omega arith) (omega arith) in
        elim (Bool-cases (x == y)) [
          | inl s ↦ (
            r,
            rw (e, f, s) run,
            (
              (λ t j u v.
                  same_at i j h1 h2 (let q : x ≡ y = ground arith in e ∙ ap some q ∙ sym f)
                    (λ ne. (iff.0 t) j (omega (arith, ne)) (omega arith))),
              λ g. iff.1 (λ j u v. g j (omega arith) (omega arith)),
            ),
          )
          | inr s ↦ (
            false,
            rw (e, f, s) refl,
            (
              (λ t. absurd (grind arith)),
              λ g.
                  (let z : get_elem? h1 i ≡ get_elem? h2 i = g i (omega arith) (omega arith) in
                    let q : x ≡ y = grind (arith, z, e, f) in absurd (ground arith)),
            ),
          )
        ]
  ]
]

-- Over two arrays with room for `len` bytes, `hashes_equal` leaves neither of them, and is true exactly if the
-- first `len` bytes are the same.
hashes_equal-decides :
    (h1 h2 : List ℕ) (len : ℕ)
    → len ≤ length h1
    → len ≤ length h2
    → (r : Bool) × (hashes_equal h1 h2 len ≡ ok r)
      × ((r ≡ true) ↔ ((j : ℕ) → j < len → get_elem? h1 j ≡ get_elem? h2 j))
unfolding hashes_equal
hashes_equal-decides h1 h2 len a b =
    let (r, run, iff) = hashes_loop-decides len 0 h1 h2 (omega arith) (omega arith) in
    (
      r,
      run,
      ((λ t j v. (iff.0 t) j (omega arith) (omega arith)), λ g. iff.1 (λ j u v. g j (omega arith))),
    )
