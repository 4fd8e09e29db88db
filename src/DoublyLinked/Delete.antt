-- ===== src/DoublyLinked/Delete.antt =====
-- Deleting the element that an iterator gave last.
use linux_track.Prelude.{
  ℕ, ◌≡◌, ◌≢◌, refl, sym, ◌∙◌, subst, Option, some, none, List, [], ◌∷◌, ◌++◌, arith, if◌then◌else◌,
  append-nil, append_assoc, Bool-cases, inl, inr, false,
}
use linux_track.Prelude.Exec.{ok}
use linux_track.Prelude.Cells.{live, live-set, free}
use linux_track.DoublyLinked.{
  Element, Heap, Plist, same, is_none, is_empty, current_of, delete_element, delete_current,
}
use linux_track.DoublyLinked.Links.{
  Chain, cons, Holds, Absent, Distinct, first_or, last_or, Chain-elsewhere, live-elsewhere,
  Chain-split, Chain-append, Distinct-split, last_or-append,
}
use linux_track.DoublyLinked.Relink.{
  Chain-beside, linked, link_next-Linked, link_prev-Linked, Distinct-Apart,
}

-- The header after the element is gone.
abbrev header_without : Plist → ℕ → Option ℕ → Option ℕ → Plist
header_without l a prev next =
    let l1 : Plist = if same l.head (some a) then record l { head = next } else l in
    if same l1.tail (some a) then record l1 { tail = prev } else l1

header_without-fields :
    (l : Plist) (a : ℕ) (prev next : Option ℕ)
    → ((header_without l a prev next).head ≡ (if same l.head (some a) then next else l.head))
      × ((header_without l a prev next).tail ≡ (if same l.tail (some a) then prev else l.tail))
header_without-fields l a prev next = elim (Bool-cases (same l.head (some a))) [
  | inl s ↦ elim (Bool-cases (same l.tail (some a))) [
    | inl t ↦ (ground (arith, s, t), ground (arith, s, t))
    | inr t ↦ (ground (arith, s, t), ground (arith, s, t))
  ]
  | inr s ↦ elim (Bool-cases (same l.tail (some a))) [
    | inl t ↦ (ground (arith, s, t), ground (arith, s, t))
    | inr t ↦ (ground (arith, s, t), ground (arith, s, t))
  ]
]

module _ {P : Type 0} where
  here :
      (h : Heap P) (n p : Option ℕ) (a : ℕ) (x : Option P) (ys : List (ℕ × Option P))
      → Chain h n p ((a, x) ∷ ys)
      → (live h a ≡ some (record { prev = p; next = first_or ys n; payload = x }))
        × Chain h n (some a) ys
  here h n p a x ys (cons _ _ _ e c) = (e, c)

  not_first :
      (a : ℕ) (x : Option P) (xs ys : List (ℕ × Option P)) (b : ℕ)
      → Absent b xs
      → b ≢ a
      → same (some b) (first_or (xs ++ ((a, x) ∷ ys)) none) ≡ false
  not_first a x [] ys b u v = ground (arith, v)
  not_first a x ((c, z) ∷ xs) ys b u v = ground (arith, u.0)

  -- The iterator is one element farther than what it gave last.
  current_of_lem :
      (h : Heap P) (l : Plist) (xs : List (ℕ × Option P)) (a : ℕ) (x : Option P)
      (ys : List (ℕ × Option P))
      → Holds h l (xs ++ ((a, x) ∷ ys))
      → current_of h l (first_or ys none) ≡ ok (some a)
  unfolding current_of
  current_of_lem h l xs a x [] k = rw (k.tail_ok, last_or-append xs a x none) refl
  current_of_lem h l xs a x ((b, z) ∷ ys) k =
      let (u, v, w) = Distinct-split xs ((b, z) ∷ ys) a x k.apart in
      let both =
        Distinct-Apart (xs ++ ((a, x) ∷ [])) ((b, z) ∷ ys)
          (subst Distinct (sym (append_assoc xs ((a, x) ∷ []) ((b, z) ∷ ys))) k.apart) in
      let (c, d) =
        here h none (last_or xs none) a x ((b, z) ∷ ys)
          (Chain-split h none ((a, x) ∷ (b, z) ∷ ys) none xs k.chain).1 in
      let (e, f) = here h none (some a) b z ys d in
      let away : Absent b xs = (Distinct-Apart xs ((b, z) ∷ ys) w).first_away b refl in
      rw (k.head_ok, not_first a x xs ((b, z) ∷ ys) b away v.0, e) refl

  head-after :
      (a : ℕ) (x : Option P) (xs ys : List (ℕ × Option P))
      → Absent a xs
      → (if same (first_or (xs ++ ((a, x) ∷ ys)) none) (some a)
          then first_or ys none
          else first_or (xs ++ ((a, x) ∷ ys)) none)
        ≡ first_or (xs ++ ys) none
  head-after a x [] ys u = ground arith
  head-after a x ((c, z) ∷ xs) ys u = ground (arith, u.0)

  last_in :
      (a : ℕ) (p : ℕ) (ys : List (ℕ × Option P))
      → p ≢ a
      → Absent a ys
      → same (last_or ys (some p)) (some a) ≡ false
  last_in a p [] v u = ground (arith, v)
  last_in a p ((c, z) ∷ ys) v u = last_in a c ys u.0 u.1

  last_or-middle :
      (xs : List (ℕ × Option P)) (a : ℕ) (x : Option P) (ys : List (ℕ × Option P)) (p : Option ℕ)
      → last_or (xs ++ ((a, x) ∷ ys)) p ≡ last_or ys (some a)
  last_or-middle [] a x ys p = refl
  last_or-middle ((c, z) ∷ xs) a x ys p = last_or-middle xs a x ys (some c)

  tail-after :
      (a : ℕ) (x : Option P) (xs ys : List (ℕ × Option P))
      → Absent a ys
      → (if same (last_or ys (some a)) (some a) then last_or xs none else last_or ys (some a))
        ≡ last_or (xs ++ ys) none
  tail-after a x xs [] u = rw (append-nil xs) (ground arith)
  tail-after a x xs ((c, z) ∷ ys) u =
      rw (last_in a c ys u.0 u.1, last_or-middle xs c z ys none) refl

  -- What deleting leaves: the run returns the payload, and the list has lost this element.
  pub data Deleted (h : Heap P) (l : Plist) (elem : Option ℕ) (a : ℕ) (x : Option P)
      (rest : List (ℕ × Option P)) : Type 0 where
    deleted :
        (h' : Heap P) (l' : Plist)
        → delete_current h l elem ≡ ok (x, h', l')
        → Holds h' l' rest
        → live h' a ≡ none
        → Deleted h l elem a x rest

  first_or-some :
      (a : ℕ) (x : Option P) (xs ys : List (ℕ × Option P))
      → is_none (first_or (xs ++ ((a, x) ∷ ys)) none) ≡ false
  first_or-some a x [] ys = refl
  first_or-some a x (c ∷ xs) ys = refl

  not_last :
      (a : ℕ) (xs : List (ℕ × Option P)) (p : Option ℕ)
      → some a ≢ p
      → Absent a xs
      → some a ≢ last_or xs p
  not_last a [] p v u = v
  not_last a ((c, z) ∷ xs) p v u = not_last a xs (some c) (λ e. u.0 (grind arith)) u.1

  not_head : (a : ℕ) (ys : List (ℕ × Option P)) → Absent a ys → some a ≢ first_or ys none
  not_head a [] u = λ e. grind arith
  not_head a ((c, z) ∷ ys) u = λ e. u.0 (grind arith)

  Holds-without :
      (h' : Heap P) (l : Plist) (xs : List (ℕ × Option P)) (a : ℕ) (x : Option P)
      (ys : List (ℕ × Option P))
      → l.head ≡ first_or (xs ++ ((a, x) ∷ ys)) none
      → l.tail ≡ last_or (xs ++ ((a, x) ∷ ys)) none
      → Distinct (xs ++ ((a, x) ∷ ys))
      → Chain h' none none (xs ++ ys)
      → Holds h' (header_without l a (last_or xs none) (first_or ys none)) (xs ++ ys)
  Holds-without h' l xs a x ys e f d c =
      let (u, v, w) = Distinct-split xs ys a x d in
      let (p, q) = header_without-fields l a (last_or xs none) (first_or ys none) in
      record {
        chain = c;
        head_ok = p ∙ rw e (head-after a x xs ys u);
        tail_ok = q ∙ rw (f, last_or-middle xs a x ys none) (tail-after a x xs ys v);
        apart = w;
      }

  -- An iterator that has just stepped over an element (it stands at the next one, or past the end) deletes exactly this element:
  -- `ltr_int_delete_current` returns its payload without a fault, frees it, and the list keeps the others in their order,
  -- linked in both directions.
  pub delete_current-Holds :
      (h : Heap P) (l : Plist) (xs : List (ℕ × Option P)) (a : ℕ) (x : Option P)
      (ys : List (ℕ × Option P))
      → Holds h l (xs ++ ((a, x) ∷ ys))
      → Deleted h l (first_or ys none) a x (xs ++ ys)
  unfolding delete_current delete_element is_empty
  delete_current-Holds h l xs a x ys k =
      let (before, c) = Chain-split h none ((a, x) ∷ ys) none xs k.chain in
      let (at_a, behind) = here h none (last_or xs none) a x ys c in
      let (u, v, w) = Distinct-split xs ys a x k.apart in
      let both = Distinct-Apart xs ys w in
      let e : Element P = record { prev = last_or xs none; next = first_or ys none; payload = x } in
      elim (link_next-Linked h (some a) (first_or ys none) xs before both.left) [
        | linked h1 run1 before1 same1 ↦
            let behind1 =
              Chain-beside h h1 none (last_or xs none) same1 (some a) ys both.last_away behind in
            let at_a1 : live h1 a ≡ some e =
              same1 a (not_last a xs none (λ q. grind arith) u) ∙ at_a in
            elim (link_prev-Linked h1 (some a) (last_or xs none) ys behind1 both.right) [
              | linked h2 run2 behind2 same2 ↦
                  let before2 =
                    Chain-beside h1 h2 (first_or ys none) (first_or ys none) same2 none xs
                      both.first_away before1 in
                  let at_a2 : live h2 a ≡ some e = same2 a (not_head a ys v) ∙ at_a1 in
                  let h3 = free h2 a in
                  let other = live-elsewhere h2 a none at_a2 in
                  let whole =
                    Chain-append h3 none ys none xs
                      (Chain-elsewhere h2 h3 (first_or ys none) a other none xs u before2)
                      (Chain-elsewhere h2 h3 none a other (last_or xs none) ys v behind2) in
                  deleted h3 (header_without l a (last_or xs none) (first_or ys none))
                    (rw
                      (
                        k.head_ok,
                        first_or-some a x xs ys,
                        sym k.head_ok,
                        current_of_lem h l xs a x ys k,
                        at_a,
                        run1,
                        run2,
                      )
                      refl)
                    (Holds-without h3 l xs a x ys k.head_ok k.tail_ok k.apart whole)
                    (ground (arith, live-set h2 a none a at_a2))
            ]
      ]
