-- ===== src/GameData/Cipher.antt =====
-- The cipher never leaves its table, and is a stream cipher.
use linux_track.Prelude.{
  ℕ, zero, suc, ◌+◌, ◌%◌, ◌<◌, ◌≡◌, refl, sym, ap, ◌∙◌, true, List, [], ◌∷◌, if◌then◌else◌, ltb,
  ◌==◌, get_or, set, length, arith, length-set, get_elem?-eq-get_or, get_or-set_self, get_or-set_ne,
  u8, u32, bit_xor, inl, inr, Bool-cases,
}
use linux_track.Prelude.Exec.{ok, read_at, to_exec}
use linux_track.GameData.{secret_key, Rc4, swap, fill, schedule, ksa, rc4, decode, decrypt}

-- The table holds each byte exactly once.
pub record Permutes (s : List ℕ) : Type 0 where
  pub size : length s ≡ 256
  pub bytes : (a : ℕ) → a < 256 → get_or s a 0 < 256
  pub once : (a b : ℕ) → a < 256 → b < 256 → get_or s a 0 ≡ get_or s b 0 → a ≡ b

read_table : (s : List ℕ) (i : ℕ) → i < length s → read_at s i ≡ ok (get_or s i 0)
read_table s i h = ap to_exec (get_elem?-eq-get_or s i 0 h)

get_or-set :
    (s : List ℕ) (i v a : ℕ)
    → i < length s
    → get_or (set s i v) a 0 ≡ (if a == i then v else get_or s a 0)
get_or-set s i v a h = elim (Bool-cases (a == i)) [
  | inl e ↦ let q : a ≡ i = ground arith in rw (e, q) (get_or-set_self s i v 0 h)
  | inr e ↦ rw e (get_or-set_ne s i a v 0 (λ q. ground arith))
]

get_or-swapped :
    (s : List ℕ) (i j a : ℕ)
    → i < length s
    → j < length s
    → get_or (set (set s i (get_or s j 0)) j (get_or s i 0)) a 0
      ≡ (if a == j then get_or s i 0 else if a == i then get_or s j 0 else get_or s a 0)
get_or-swapped s i j a h k =
    let size = length-set s i (get_or s j 0) in
    get_or-set (set s i (get_or s j 0)) j (get_or s i 0) a (omega (arith, size))
    ∙ rw (get_or-set s i (get_or s j 0) a h) refl

-- Where an entry of the swapped table comes from.
abbrev from : ℕ → ℕ → ℕ → ℕ
from i j a = if a == j then i else if a == i then j else a

swapped-from :
    (s : List ℕ) (i j a : ℕ)
    → i < length s
    → j < length s
    → get_or (set (set s i (get_or s j 0)) j (get_or s i 0)) a 0 ≡ get_or s (from i j a) 0
swapped-from s i j a h k = ground (arith, get_or-swapped s i j a h k)

from-below : (i j a : ℕ) → i < 256 → j < 256 → a < 256 → from i j a < 256
from-below i j a h k l = ground arith

from-once : (i j a b : ℕ) → from i j a ≡ from i j b → a ≡ b
from-once i j a b e = ground arith

swap-Permutes :
    (s : List ℕ) (i j : ℕ)
    → Permutes s
    → i < 256
    → j < 256
    → (s' : List ℕ) × (swap s i j ≡ ok s') × Permutes s'
unfolding swap
swap-Permutes s i j p h k =
    let hi : i < length s = omega (arith, p.size) in
    let hj : j < length s = omega (arith, p.size) in
    let size = length-set s i (get_or s j 0) in
    let t1 : ltb i (length s) ≡ true = ground arith in
    let t2 : ltb j (length (set s i (get_or s j 0))) ≡ true = ground (arith, size) in
    let s' = set (set s i (get_or s j 0)) j (get_or s i 0) in
    (
      s',
      rw (read_table s i hi, read_table s j hj, t1, t2) refl,
      record {
        size = length-set (set s i (get_or s j 0)) j (get_or s i 0) ∙ size ∙ p.size;
        bytes =
            λ a l. rw (swapped-from s i j a hi hj) (p.bytes (from i j a) (from-below i j a h k l));
        once = λ a b l m e. from-once i j a b (
            p.once (from i j a) (from i j b) (from-below i j a h k l) (from-below i j b h k m)
              (sym (swapped-from s i j a hi hj) ∙ e ∙ swapped-from s i j b hi hj));
      },
    )

-- A table that is filled so far.
fill-lem :
    (n i : ℕ) (s : List ℕ)
    → length s ≡ 256
    → i + n ≡ 256
    → ((a : ℕ) → a < i → get_or s a 0 ≡ a)
    → (s' : List ℕ) × (fill n i s ≡ ok s')
      × (length s' ≡ 256)
      × ((a : ℕ) → a < 256 → get_or s' a 0 ≡ a)
unfolding fill
fill-lem zero i s e f g = (s, refl, e, λ a l. g a (omega arith))
fill-lem (suc n) i s e f g =
    let t : ltb i (length s) ≡ true = ground arith in
    let (s', run, size, id) =
      fill-lem n (i + 1) (set s i (u8 i)) (length-set s i (u8 i) ∙ e) (omega arith)
        (λ a l. get_or-set s i (u8 i) a (omega arith) ∙ ground (arith, g a)) in
    (s', rw t run, size, id)

schedule-Permutes :
    (n i j : ℕ) (s : List ℕ)
    → Permutes s
    → i + n ≡ 256
    → (s' : List ℕ) × (schedule n i j secret_key 16 s ≡ ok s') × Permutes s'
unfolding schedule
schedule-Permutes zero i j s p h = (s, refl, p)
schedule-Permutes (suc n) i j s p h =
    let k = get_or secret_key (i % 16) 0 in
    let j' = u32 (u32 (j + get_or s i 0) + k) % 256 in
    let (s1, run1, p1) = swap-Permutes s i j' p (omega arith) (omega arith) in
    let (s2, run2, p2) = schedule-Permutes n (i + 1) j' s1 p1 (omega arith) in
    (
      s2,
      rw
          (
            read_table s i (omega (arith, p.size)),
            read_table secret_key (i % 16) (omega arith),
            run1,
          )
          run2,
      p2,
    )

ksa-Permutes :
    (s : List ℕ) → length s ≡ 256 → (r : Rc4) × (ksa secret_key 16 s ≡ ok r) × Permutes r.s
unfolding ksa
ksa-Permutes s e =
    let (s1, run1, size, id) = fill-lem 256 0 s e refl (λ a l. absurd (omega arith)) in
    let p1 : Permutes s1 = record {
      size = size;
      bytes = λ a l. rw (id a l) l;
      once = λ a b l m q. sym (id a l) ∙ q ∙ id b m;
    } in
    let (s2, run2, p2) = schedule-Permutes 256 0 0 s1 p1 refl in
    (record { s = s2; i = 0; j = 0 }, rw (run1, run2) refl, p2)

rc4-Permutes :
    (r : Rc4)
    → Permutes r.s
    → (k : ℕ) × (r' : Rc4) × (rc4 r ≡ ok (k, r')) × (k < 256) × Permutes r'.s
unfolding rc4
rc4-Permutes r p =
    let i = u8 (r.i + 1) in
    let j = u8 (r.j + get_or r.s i 0) in
    let (s, run, q) = swap-Permutes r.s i j p (omega arith) (omega arith) in
    let at = (get_or s i 0 + get_or s j 0) % 256 in
    (
      get_or s at 0,
      record { s = s; i = i; j = j },
      rw
          (
            read_table r.s i (omega (arith, p.size)),
            run,
            read_table s i (omega (arith, q.size)),
            read_table s j (omega (arith, q.size)),
            read_table s at (omega (arith, q.size)),
          )
          refl,
      q.bytes at (omega arith),
      q,
    )

abbrev pub xors : List ℕ → List ℕ → List ℕ
xors [] ks = []
xors (b ∷ bs) [] = []
xors (b ∷ bs) (k ∷ ks) = bit_xor b k ∷ xors bs ks

abbrev pub AreBytes : List ℕ → Type 0
AreBytes [] = Unit {0}
AreBytes (k ∷ ks) = (k < 256) × AreBytes ks

decode-keystream :
    (n : ℕ) (r : Rc4)
    → Permutes r.s
    → (ks : List ℕ) × (r' : Rc4) × (length ks ≡ n)
      × AreBytes ks
      × Permutes r'.s
      × ((bytes : List ℕ) → length bytes ≡ n → decode bytes r ≡ ok (xors bytes ks, r'))
unfolding decode
decode-keystream zero r p = ([], r, refl, tt, p, none_left r)
  where
    none_left :
        (r : Rc4) (bytes : List ℕ) → length bytes ≡ 0 → decode bytes r ≡ ok (xors bytes [], r)
    none_left r [] e = refl
    none_left r (b ∷ bs) e = absurd (omega arith)
decode-keystream (suc n) r p =
    let (k, r1, run, small, p1) = rc4-Permutes r p in
    let (ks, r2, size, rest, p2, all) = decode-keystream n r1 p1 in
    (k ∷ ks, r2, ap suc size, (small, rest), p2, one_more r k r1 run ks r2 all)
  where
    one_more :
        (r : Rc4) (k : ℕ) (r1 : Rc4)
        → rc4 r ≡ ok (k, r1)
        → (ks : List ℕ) (r2 : Rc4)
        → ((bytes : List ℕ) → length bytes ≡ n → decode bytes r1 ≡ ok (xors bytes ks, r2))
        → (bytes : List ℕ) → length bytes ≡ suc n
        → decode bytes r ≡ ok (xors bytes (k ∷ ks), r2)
    one_more r k r1 run ks r2 all [] e = absurd (omega arith)
    one_more r k r1 run ks r2 all (b ∷ bs) e = rw (run, all bs (omega arith)) refl

-- Whatever the table of 256 entries held, the cipher never leaves it or the key, and holds each byte once after
-- every step; for files of the same length the same bytes, which do not depend on the
-- file, are combined with it by exclusive or.
pub decrypt-keystream :
    (s : List ℕ) (n : ℕ)
    → length s ≡ 256
    → (ks : List ℕ) × (length ks ≡ n)
      × AreBytes ks
      × ((bytes : List ℕ) → length bytes ≡ n → decrypt s bytes ≡ ok (xors bytes ks))
unfolding decrypt
decrypt-keystream s n e =
    let (r, run, p) = ksa-Permutes s e in
    let (ks, r', size, small, q, all) = decode-keystream n r p in
    (ks, size, small, λ bytes h. rw (run, all bytes h) refl)
