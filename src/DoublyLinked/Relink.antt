-- ===== src/DoublyLinked/Relink.antt =====
-- Writing the links at the two sides of a gap in a chain.
use linux_track.Prelude.{
  ℕ, ◌≡◌, ◌≢◌, refl, sym, ap, ◌∙◌, subst, Option, some, none, List, [], ◌∷◌, ◌++◌, arith,
  append_assoc,
}
use linux_track.Prelude.Exec.{Exec, ok}
use linux_track.Prelude.Cells.{live, live-set, store}
use linux_track.DoublyLinked.{Element, Heap, link_next, link_prev}
use linux_track.DoublyLinked.Links.{
  Chain, nil, cons, Absent, Distinct, first_or, last_or, Chain-elsewhere, live-elsewhere,
  Chain-split, Chain-append, Distinct-split, last_or-append,
}
use linux_track.DoublyLinked.Add.{last_node}

module _ {P : Type 0} where
  -- What is written at an address outside the chain, if at all, leaves it.
  pub Chain-beside :
      (h h' : Heap P) (n o : Option ℕ)
      → ((q : ℕ) → some q ≢ o → live h' q ≡ live h q)
      → (p : Option ℕ) (xs : List (ℕ × Option P)) → ((b : ℕ) → o ≡ some b → Absent b xs)
      → Chain h n p xs
      → Chain h' n p xs
  Chain-beside h h' n o same p [] away nil = nil
  Chain-beside h h' n o same p (_ ∷ _) away (cons a x xs e c) =
      cons a x xs (same a (λ q. (away a (sym q)).0 refl) ∙ e)
        (Chain-beside h h' n o same (some a) xs (λ b q. (away b q).1) c)

  -- The heap after one side of a gap was linked: `xs` lies between `p` and `n`, and only `o` was written.
  pub data Linked (h : Heap P) (run : Exec (Heap P)) (n p o : Option ℕ) (xs : List (ℕ × Option P))
      : Type 0 where
    linked :
        (h' : Heap P)
        → run ≡ ok h'
        → Chain h' n p xs
        → ((q : ℕ) → some q ≢ o → live h' q ≡ live h q)
        → Linked h run n p o xs

  only_link :
      (h : Heap P) (n p : Option ℕ) (t : ℕ) (y : Option P)
      → Chain h n p ((t, y) ∷ [])
      → live h t ≡ some (record { prev = p; next = n; payload = y })
  only_link h n p t y (cons _ _ _ e c) = e

  link_next-last :
      (h : Heap P) (n n' : Option ℕ) (ys : List (ℕ × Option P)) (t : ℕ) (y : Option P)
      → Chain h n none (ys ++ ((t, y) ∷ []))
      → Distinct (ys ++ ((t, y) ∷ []))
      → Linked h (link_next h (some t) n') n' none (some t) (ys ++ ((t, y) ∷ []))
  link_next-last h n n' ys t y c d =
      let (before, at_t) = Chain-split h n ((t, y) ∷ []) none ys c in
      let (away, u, v) = Distinct-split ys [] t y d in
      let old = only_link h n (last_or ys none) t y at_t in
      let e' : Element P = record { prev = last_or ys none; next = n'; payload = y } in
      let h' = store h t e' in
      let other = live-elsewhere h t (some e') old in
      linked h' (rw old refl)
        (Chain-append h' n' ((t, y) ∷ []) none ys
          (Chain-elsewhere h h' (some t) t other none ys away before)
          (cons t y [] (ground (arith, live-set h t (some e') t old)) nil))
        (λ q ne. other q (λ e. ne (ap some e)))

  pub link_next-Linked :
      (h : Heap P) (n n' : Option ℕ) (xs : List (ℕ × Option P))
      → Chain h n none xs
      → Distinct xs
      → Linked h (link_next h (last_or xs none) n') n' none (last_or xs none) xs
  link_next-Linked h n n' [] c d = linked h refl nil (λ q ne. refl)
  link_next-Linked h n n' (x ∷ xs) c d =
      let (ys, t, y, e) = last_node x xs in
      subst (λ zs. Linked h (link_next h (last_or zs none) n') n' none (last_or zs none) zs) (sym e)
        (subst (λ o. Linked h (link_next h o n') n' none o (ys ++ ((t, y) ∷ [])))
          (sym (last_or-append ys t y none))
          (link_next-last h n n' ys t y (subst (Chain h n none) e c) (subst Distinct e d)))

  pub link_prev-Linked :
      (h : Heap P) (p p' : Option ℕ) (xs : List (ℕ × Option P))
      → Chain h none p xs
      → Distinct xs
      → Linked h (link_prev h (first_or xs none) p') none p' (first_or xs none) xs
  link_prev-Linked h p p' [] c d = linked h refl nil (λ q ne. refl)
  link_prev-Linked h p p' ((b, z) ∷ xs) (cons _ _ _ e c) d =
      let e' : Element P = record { prev = p'; next = first_or xs none; payload = z } in
      let h' = store h b e' in
      let other = live-elsewhere h b (some e') e in
      linked h' (rw e refl)
        (cons b z xs (ground (arith, live-set h b (some e') b e))
          (Chain-elsewhere h h' none b other (some b) xs d.0 c))
        (λ q ne. other q (λ f. ne (ap some f)))

  -- Two lists of nodes that are distinct together.
  pub record Apart (xs ys : List (ℕ × Option P)) : Type 0 where
    pub left : Distinct xs
    pub right : Distinct ys
    pub first_away : (b : ℕ) → first_or ys none ≡ some b → Absent b xs
    pub last_away : (t : ℕ) → last_or xs none ≡ some t → Absent t ys

  Absent-left : (a : ℕ) (xs ys : List (ℕ × Option P)) → Absent a (xs ++ ys) → Absent a xs
  Absent-left a [] ys k = tt
  Absent-left a (x ∷ xs) ys k = (k.0, Absent-left a xs ys k.1)

  Distinct-left : (xs ys : List (ℕ × Option P)) → Distinct (xs ++ ys) → Distinct xs
  Distinct-left [] ys d = tt
  Distinct-left ((a, x) ∷ xs) ys d = (Absent-left a xs ys d.0, Distinct-left xs ys d.1)

  Distinct-right : (xs ys : List (ℕ × Option P)) → Distinct (xs ++ ys) → Distinct ys
  Distinct-right [] ys d = d
  Distinct-right (x ∷ xs) ys d = Distinct-right xs ys d.1

  first-away :
      (xs ys : List (ℕ × Option P))
      → Distinct (xs ++ ys)
      → (b : ℕ) → first_or ys none ≡ some b
      → Absent b xs
  first-away xs [] d b e = absurd (grind arith)
  first-away xs ((c, z) ∷ ys) d b e =
      let q : c ≡ b = grind arith in subst (λ i. Absent i xs) q (Distinct-split xs ys c z d).0

  last-away :
      (xs ys : List (ℕ × Option P))
      → Distinct (xs ++ ys)
      → (t : ℕ) → last_or xs none ≡ some t
      → Absent t ys
  last-away [] ys d t e = absurd (grind arith)
  last-away (x ∷ xs) ys d t e =
      let (zs, u, y, f) = last_node x xs in
      let g : last_or (zs ++ ((u, y) ∷ [])) none ≡ some t =
        subst (λ ws. last_or ws none ≡ some t) f e in
      let q : u ≡ t = grind (arith, last_or-append zs u y none, g) in
      let d' : Distinct (zs ++ ((u, y) ∷ ys)) =
        subst Distinct (ap (λ ws. ws ++ ys) f ∙ append_assoc zs ((u, y) ∷ []) ys) d in
      subst (λ i. Absent i ys) q (Distinct-split zs ys u y d').1

  pub Distinct-Apart : (xs ys : List (ℕ × Option P)) → Distinct (xs ++ ys) → Apart xs ys
  Distinct-Apart xs ys d = record {
    left = Distinct-left xs ys d;
    right = Distinct-right xs ys d;
    first_away = first-away xs ys d;
    last_away = last-away xs ys d;
  }
