-- ===== src/DoublyLinked/Walk.antt =====
-- Walking along a list and freeing it.
use linux_track.Prelude.{
  ℕ, suc, ◌≡◌, refl, ap, ◌∙◌, Bool, Option, some, none, List, [], ◌∷◌, ◌++◌, length, map, arith,
  if◌then◌else◌, false, ltb,
}
use linux_track.Prelude.Exec.{ok}
use linux_track.Prelude.Cells.{live, live-set, free}
use linux_track.DoublyLinked.{
  Element, Heap, Plist, is_none, is_empty, get_next, get_prev, strings, free_elements, free_list,
  list2string_list, init_iterator,
}
use linux_track.DoublyLinked.Links.{
  Chain, nil, cons, Holds, Absent, Distinct, first_or, last_or, Chain-elsewhere, live-elsewhere,
  Chain-split,
}

module _ {P : Type 0} where
  abbrev pub payloads : List (ℕ × Option P) → List (Option P)
  payloads [] = []
  payloads ((a, x) ∷ xs) = x ∷ payloads xs

  -- From any element of a list, an iterator gives its payload and steps to the element after it
  -- (`ltr_int_get_next`) or before it (`ltr_int_get_prev`), past the ends to the null pointer.
  get_next-get_prev :
      (h : Heap P) (l : Plist) (xs : List (ℕ × Option P)) (a : ℕ) (x : Option P)
      (ys : List (ℕ × Option P))
      → Holds h l (xs ++ ((a, x) ∷ ys))
      → (get_next h (some a) ≡ ok (x, first_or ys none))
        × (get_prev h (some a) ≡ ok (x, last_or xs none))
  unfolding get_next get_prev
  get_next-get_prev h l xs a x ys k = here ((Chain-split h none ((a, x) ∷ ys) none xs k.chain).1)
    where
      here :
          Chain h none (last_or xs none) ((a, x) ∷ ys)
          → (get_next h (some a) ≡ ok (x, first_or ys none))
            × (get_prev h (some a) ≡ ok (x, last_or xs none))
      here (cons _ _ _ e c) = (rw e refl, rw e refl)

  pub strings_lem :
      (h : Heap P) (p : Option ℕ) (xs : List (ℕ × Option P)) (ids : List P)
      → payloads xs ≡ map some ids
      → Chain h none p xs
      → strings (suc (length xs)) h (first_or xs none) ≡ ok ids
  unfolding strings get_next
  strings_lem h p [] [] e nil = refl
  strings_lem h p [] (i ∷ ids) e nil = absurd (grind arith)
  strings_lem h p (_ ∷ _) [] e (cons a x xs f c) = absurd (grind arith)
  strings_lem h p (_ ∷ _) (i ∷ ids) e (cons a x xs f c) =
      let here : x ≡ some i = grind arith in
      let rest : payloads xs ≡ map some ids = grind arith in
      rw (f, strings_lem h (some a) xs ids rest c, here) refl

  -- Nothing lives at the nodes' addresses.
  abbrev pub Gone : Heap P → List (ℕ × Option P) → Type 0
  Gone h [] = Unit {0}
  Gone h ((a, x) ∷ xs) = (live h a ≡ none) × Gone h xs

  abbrev pub freed_if : Bool → List (ℕ × Option P) → List (Option P)
  freed_if free_payload xs = if free_payload then payloads xs else []

  -- What freeing leaves: every element is freed, once, and nothing else of the heap is touched.
  pub record Freed (h h' : Heap P) (xs : List (ℕ × Option P)) : Type 0 where
    pub gone : Gone h' xs
    pub others : (q : ℕ) → Absent q xs → live h' q ≡ live h q

  Freed-step :
      (h : Heap P) (a : ℕ) (x : Option P) (xs : List (ℕ × Option P)) (h' : Heap P)
      → {e : Element P} → live h a ≡ some e
      → Absent a xs
      → Freed (free h a) h' xs
      → Freed h h' ((a, x) ∷ xs)
  Freed-step h a x xs h' e away k = record {
    gone = (k.others a away ∙ ground (arith, live-set h a none a e), k.gone);
    others = λ q ne. k.others q ne.1 ∙ ground (arith, live-set h a none q e, ne.0);
  }

  pub free_elements-Freed :
      (h : Heap P) (b : Bool) (p : Option ℕ) (xs : List (ℕ × Option P))
      → Distinct xs
      → Chain h none p xs
      → (h' : Heap P) × (free_elements (suc (length xs)) b h (first_or xs none)
          ≡ ok (freed_if b xs, h'))
        × Freed h h' xs
  unfolding free_elements
  free_elements-Freed h b p [] d nil =
      (h, (ground arith), record { gone = tt; others = λ q e. refl })
  free_elements-Freed h b p ((a, x) ∷ xs) (away, d) (cons _ _ _ e c) =
      let (h', run, k) =
        free_elements-Freed (free h a) b (some a) xs d
          (Chain-elsewhere h (free h a) none a (live-elsewhere h a none e) (some a) xs away c) in
      (h', ground (arith, run, e), Freed-step h a x xs h' e away k)

  length-payloads :
      (xs : List (ℕ × Option P)) (ids : List P)
      → payloads xs ≡ map some ids
      → length xs ≡ length ids
  length-payloads [] [] e = refl
  length-payloads [] (i ∷ ids) e = absurd (grind arith)
  length-payloads (x ∷ xs) [] e = absurd (grind arith)
  length-payloads (x ∷ xs) (i ∷ ids) e = ap suc (length-payloads xs ids (grind arith))

  -- From a list of strings, none of them null, `ltr_int_list2string_list` makes an array of exactly these strings in
  -- their order and a null pointer behind them, within the room it counted, and returns their number; the list's elements are freed and
  -- nothing else is. One round more than there are elements is enough.
  list2string_list_lem :
      (h : Heap P) (l : Plist) (xs : List (ℕ × Option P)) (ids : List P)
      → Holds h l xs
      → payloads xs ≡ map some ids
      → (h' : Heap P) × (list2string_list (suc (length xs)) h l
          ≡ ok (length ids, map some ids ++ (none ∷ []), h'))
        × Freed h h' xs
  unfolding list2string_list free_list is_empty init_iterator
  list2string_list_lem h l xs ids k e =
      let (h', run, f) = free_elements-Freed h false none xs k.apart k.chain in
      let walk : strings (suc (length xs)) h l.head ≡ ok ids =
        rw (k.head_ok) (strings_lem h none xs ids e k.chain) in
      let run' : free_elements (suc (length xs)) false h l.head ≡ ok ([], h') =
        rw (k.head_ok) run in
      let first : (if is_none l.head then ok [] else strings (suc (length xs)) h l.head) ≡ ok ids =
        rw walk (counted l xs ids k.head_ok e) in
      let room : ltb (length ids) (length ids) ≡ false = ground arith in
      (h', rw (first, walk, room, run') refl, f)
    where
      counted :
          (l : Plist) (xs : List (ℕ × Option P)) (ids : List P)
          → l.head ≡ first_or xs none
          → payloads xs ≡ map some ids
          → (if is_none l.head then ok [] else ok ids) ≡ ok ids
      counted l [] [] f e = rw f refl
      counted l [] (i ∷ ids) f e = absurd (grind arith)
      counted l (x ∷ xs) ids f e = rw f refl
