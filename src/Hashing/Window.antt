-- ===== src/Hashing/Window.antt =====
-- The rolling checksum is that of the last 32 bytes.
use linux_track.Prelude.{
  ℕ, zero, suc, ◌+◌, ◌%◌, ◌≤◌, ◌<◌, ◌≡◌, ◌≢◌, refl, sym, ap, subst, ◌∙◌, true, some, List, [], ◌∷◌,
  ◌++◌, if◌then◌else◌, ltb, ◌==◌, get_elem?, set, length, replicate, arith, drop, length-set,
  length-append, get_elem?-set, append-nil, append_assoc,
}
use linux_track.Prelude.Exec.{Exec, ok, fault, out_of_fuel, ◌>>=◌}
use linux_track.Hashing.{Csum, csum_init, csum_round, csum_loop, csum_compute, hash_loop, hash_csum}

abbrev pub checksum_from : ℕ → List ℕ → ℕ
checksum_from tmp [] = tmp
checksum_from tmp (b ∷ bs) = checksum_from (csum_round tmp b) bs

-- The rounds of `csum_compute` over a list of bytes.
abbrev pub checksum : List ℕ → ℕ
checksum w = checksum_from 0 w

-- The ring holds these bytes, the oldest first.
record Ring (c : Csum) (w : List ℕ) : Type 0 where
  size : length c.buffer ≡ 32
  at : c.index < 32
  width : length w ≡ 32
  holds : (j : ℕ) → j < 32 → get_elem? c.buffer ((c.index + j) % 32) ≡ get_elem? w j

drop-get :
    (w : List ℕ) (i : ℕ)
    → i < length w
    → (b : ℕ) × (get_elem? w i ≡ some b) × (drop i w ≡ b ∷ drop (suc i) w)
drop-get [] i h = absurd (omega arith)
drop-get (b ∷ w) zero h = (b, refl, refl)
drop-get (b ∷ w) (suc i) h = drop-get w i (omega arith)

drop-length : (w : List ℕ) (i : ℕ) → length w ≤ i → drop i w ≡ []
drop-length [] zero h = refl
drop-length [] (suc i) h = refl
drop-length (b ∷ w) zero h = absurd (omega arith)
drop-length (b ∷ w) (suc i) h = drop-length w i (omega arith)

csum_loop-Ring :
    (n i : ℕ) (c : Csum) (w : List ℕ) (tmp : ℕ)
    → Ring c w
    → i + n ≡ 32
    → csum_loop n i c tmp ≡ ok (checksum_from tmp (drop i w))
unfolding csum_loop
csum_loop-Ring zero i c w tmp r h = rw (drop-length w i (omega (arith, r.width))) refl
csum_loop-Ring (suc n) i c w tmp r h =
    let (b, e, f) = drop-get w i (omega (arith, r.width)) in
    let next : suc i ≡ i + 1 = omega arith in
    rw (r.holds i (omega arith), e, f, next)
      (csum_loop-Ring n (i + 1) c w (csum_round tmp b) r (omega arith))

-- The oldest byte goes, the new one comes.
abbrev slide : List ℕ → ℕ → List ℕ
slide [] b = []
slide (x ∷ w) b = w ++ (b ∷ [])

length-slide : (w : List ℕ) (b : ℕ) → length (slide w b) ≡ length w
length-slide [] b = refl
length-slide (x ∷ w) b = omega (arith, length-append w (b ∷ []))

get_elem?-snoc :
    (w : List ℕ) (b j : ℕ)
    → j ≤ length w
    → get_elem? (w ++ (b ∷ [])) j ≡ (if j == length w then some b else get_elem? w j)
get_elem?-snoc [] b zero h = refl
get_elem?-snoc [] b (suc j) h = absurd (omega arith)
get_elem?-snoc (x ∷ w) b zero h = ground arith
get_elem?-snoc (x ∷ w) b (suc j) h = ground (arith, get_elem?-snoc w b j)

get_elem?-slide :
    (w : List ℕ) (b j : ℕ)
    → j < length w
    → get_elem? (slide w b) j ≡ (if suc j == length w then some b else get_elem? w (suc j))
get_elem?-slide [] b j h = absurd (omega arith)
get_elem?-slide (x ∷ w) b j h = ground (arith, get_elem?-snoc w b j)

wrapped :
    (i j : ℕ)
    → i < 32
    → j < 32
    → ((i + 1) % 32 + j) % 32 ≡ (if suc j == 32 then i else (i + suc j) % 32)
wrapped i j h k = ground arith

apart : (i j : ℕ) → i < 32 → suc j < 32 → (i + suc j) % 32 ≢ i
apart i j h k = λ e. omega arith

Ring-slide :
    (c : Csum) (w : List ℕ) (b : ℕ)
    → Ring c w
    → Ring (record { buffer = set c.buffer c.index b; index = (c.index + 1) % 32 }) (slide w b)
Ring-slide c w b r = record {
  size = length-set c.buffer c.index b ∙ r.size;
  at = omega arith;
  width = length-slide w b ∙ r.width;
  holds = λ j h.
      let fits : c.index < length c.buffer = omega (arith, r.size, r.at) in
      rw (wrapped c.index j r.at h, get_elem?-slide w b j (omega (arith, r.width)), r.width)
        (ground (
          arith,
          apart c.index j r.at,
          r.holds (suc j),
          get_elem?-set c.buffer c.index b (if suc j == 32 then c.index else (c.index + suc j) % 32)
              fits,
        ));
}

csum_compute-Ring :
    (c : Csum) (w : List ℕ) (b : ℕ)
    → Ring c w
    → (c' : Csum) × (csum_compute b c ≡ ok (checksum (slide w b), c')) × Ring c' (slide w b)
unfolding csum_compute
csum_compute-Ring c w b r =
    let c' : Csum = record { buffer = set c.buffer c.index b; index = (c.index + 1) % 32 } in
    let r' : Ring c' (slide w b) = Ring-slide c w b r in
    let fits : ltb c.index (length c.buffer) ≡ true = ground (arith, r.size, r.at) in
    (c', rw (fits, csum_loop-Ring 32 0 c' (slide w b) 0 r' refl) refl, r')

-- The bytes of a file one by one, pre `search_file` hands them over, and the last checksum.
abbrev pub feed : List ℕ → ℕ → Csum → Exec (ℕ × Csum)
feed [] res c = ok (res, c)
feed (b ∷ bs) res c = do (res', c') ← csum_compute b c; feed bs res' c'

abbrev slides : List ℕ → List ℕ → List ℕ
slides w [] = w
slides w (b ∷ bs) = slides (slide w b) bs

feed-Ring :
    (bs : List ℕ) (b : ℕ) (res : ℕ) (c : Csum) (w : List ℕ)
    → Ring c w
    → (c' : Csum) × (feed (b ∷ bs) res c ≡ ok (checksum (slides w (b ∷ bs)), c'))
feed-Ring [] b res c w r = let (c', run, r') = csum_compute-Ring c w b r in (c', rw run refl)
feed-Ring (d ∷ bs) b res c w r =
    let (c', run, r') = csum_compute-Ring c w b r in
    let (c'', run') = feed-Ring bs d (checksum (slide w b)) c' (slide w b) r' in (c'', rw run run')

slides-append : (w pre bs : List ℕ) → slides w (pre ++ bs) ≡ slides (slides w pre) bs
slides-append w [] bs = refl
slides-append w (a ∷ pre) bs = slides-append (slide w a) pre bs

-- Bytes slide through a window: the last ones are left of it.
slides-past : (v w bs : List ℕ) → length v ≡ length bs → slides (v ++ w) bs ≡ w ++ bs
slides-past [] w [] e = sym (append-nil w)
slides-past [] w (b ∷ bs) e = absurd (omega arith)
slides-past (x ∷ v) w [] e = absurd (omega arith)
slides-past (x ∷ v) w (b ∷ bs) e =
    ap (λ u. slides u bs) (append_assoc v w (b ∷ []))
    ∙ slides-past v (w ++ (b ∷ [])) bs (omega arith)
    ∙ append_assoc w (b ∷ []) bs

length-slides : (w bs : List ℕ) → length (slides w bs) ≡ length w
length-slides w [] = refl
length-slides w (b ∷ bs) = length-slides (slide w b) bs ∙ length-slide w b

slides-last : (w pre bs : List ℕ) → length w ≡ length bs → slides w (pre ++ bs) ≡ bs
slides-last w pre bs e =
    slides-append w pre bs
    ∙ ap (λ u. slides u bs) (sym (append-nil (slides w pre)))
    ∙ slides-past (slides w pre) [] bs (length-slides w pre ∙ e)

init-Ring : Ring csum_init (replicate 32 0)
unfolding csum_init
init-Ring = record {
  size = refl;
  at = omega arith;
  width = refl;
  holds = λ j h. let e : (0 + j) % 32 ≡ j = omega arith in ap (get_elem? (replicate 32 0)) e;
}

drop-cons :
    (w : List ℕ) (i b : ℕ) (bs : List ℕ)
    → drop i w ≡ b ∷ bs
    → (get_elem? w i ≡ some b) × (drop (suc i) w ≡ bs)
drop-cons [] zero b bs e = absurd (grind arith)
drop-cons [] (suc i) b bs e = absurd (grind arith)
drop-cons (x ∷ w) zero b bs e = (grind arith, grind arith)
drop-cons (x ∷ w) (suc i) b bs e = drop-cons w i b bs e

hash_loop-feed :
    (bs : List ℕ) (i : ℕ) (data' rest : List ℕ) (res : ℕ) (c : Csum)
    → drop i data' ≡ bs ++ rest
    → hash_loop (length bs) i data' res c ≡ (feed bs res c >>= λ (res', c'). ok res')
unfolding hash_loop
hash_loop-feed [] i data' rest res c e = refl
hash_loop-feed (b ∷ bs) i data' rest res c e =
    let (f, g) = drop-cons data' i b (bs ++ rest) e in
    let next : suc i ≡ i + 1 = omega arith in
    rw f (
      after (csum_compute b c) (λ res' c'.
        subst
          (λ k. hash_loop (length bs) k data' res' c' ≡ (feed bs res' c' >>= λ (res', c'). ok res'))
          next (hash_loop-feed bs (suc i) data' rest res' c' g)))
  where
    after :
        (m : Exec (ℕ × Csum))
        → ((res' : ℕ) (c' : Csum)
            → hash_loop (length bs) (i + 1) data' res' c'
              ≡ (feed bs res' c' >>= λ (res', c'). ok res'))
        → (m >>= λ (res', c'). hash_loop (length bs) (i + 1) data' res' c')
          ≡ ((m >>= λ (res', c'). feed bs res' c') >>= λ (res', c'). ok res')
    after (ok (r, d)) k = k r d
    after fault k = refl
    after out_of_fuel k = refl

feed-checksum :
    (pre last : List ℕ)
    → length last ≡ 32
    → (c : Csum) × (feed (pre ++ last) 0 csum_init ≡ ok (checksum last, c))
feed-checksum pre last e = go (pre ++ last) (slides-last (replicate 32 0) pre last (sym e)) refl
  where
    go :
        (bs : List ℕ)
        → slides (replicate 32 0) bs ≡ last
        → pre ++ last ≡ bs
        → (c : Csum) × (feed bs 0 csum_init ≡ ok (checksum last, c))
    go [] f g = absurd (omega (arith, length-append pre last, ap length g, e))
    go (b ∷ bs) f g =
        let (c, run) = feed-Ring bs b 0 csum_init (replicate 32 0) init-Ring in
        (c, subst (λ w. feed (b ∷ bs) 0 csum_init ≡ ok (checksum w, c)) f run)

-- Whatever bytes `pre` came before, when the last 32 bytes of a file have been handed to a fresh checksum one by one, it
-- is what `hash_csum` computes for any file that begins with these 32 bytes; neither leaves a buffer.
pub feed-hash_csum :
    (pre last rest : List ℕ)
    → length last ≡ 32
    → (v : ℕ) × (c : Csum) × (feed (pre ++ last) 0 csum_init ≡ ok (v, c))
      × (hash_csum (last ++ rest) ≡ ok v)
unfolding hash_csum
feed-hash_csum pre last rest e =
    let (c, run) = feed-checksum pre last e in
    let (d, run') = feed-checksum [] last e in
    let whole = hash_loop-feed last 0 (last ++ rest) rest 0 csum_init refl in
    (
      checksum last,
      c,
      run,
      sym (ap (λ n. hash_loop n 0 (last ++ rest) 0 csum_init) e) ∙ whole ∙ rw run' refl,
    )
