-- ===== src/DoublyLinked/Add.antt =====
-- Adding to a list.
use linux_track.Prelude.{
  ℕ, ◌≡◌, ◌≢◌, refl, sym, ◌∙◌, subst, Option, some, none, List, [], ◌∷◌, ◌++◌, length, arith, false,
}
use linux_track.Prelude.Exec.{ok}
use linux_track.Prelude.Cells.{live, live-set, store, alloc, live-alloc, live-length}
use linux_track.DoublyLinked.{Element, Heap, Plist, add_element, add_behind, is_none}
use linux_track.DoublyLinked.Links.{
  Chain, nil, cons, Holds, first_or, last_or, Chain-elsewhere, Chain-Absent_fresh, live-elsewhere,
  Chain-append, Chain-split, last_or-append, Distinct-split, Distinct-append,
}

module _ {P : Type 0} where
  -- A list that is not empty has a last node.
  pub last_node :
      (c : ℕ × Option P) (xs : List (ℕ × Option P))
      → (ys : List (ℕ × Option P)) × (t : ℕ) × (y : Option P) × (c ∷ xs ≡ ys ++ ((t, y) ∷ []))
  last_node (t, y) [] = ([], t, y, refl)
  last_node c (d ∷ xs) = let (ys, t, y, e) = last_node d xs in (c ∷ ys, t, y, rw e refl)

  -- What adding leaves: the run returns, and the list has one more element at its end.
  pub data Added (h : Heap P) (l : Plist) (x : Option P) (xs : List (ℕ × Option P)) : Type 0 where
    added :
        (h' : Heap P) (l' : Plist)
        → add_element h l x ≡ ok (h', l')
        → Holds h' l' (xs ++ ((length h, x) ∷ []))
        → Added h l x xs

  add_element-empty : (h : Heap P) (l : Plist) (x : Option P) → Holds h l [] → Added h l x []
  unfolding add_element
  add_element-empty h l x k =
      let e : Element P = record { prev = none; next = none; payload = x } in
      added (alloc h e) (record { head = some (length h); tail = some (length h) })
        (rw (k.head_ok) refl)
        (record {
          chain = cons (length h) x [] (ground (arith, live-alloc h e (length h))) nil;
          head_ok = refl;
          tail_ok = refl;
          apart = (tt, tt);
        })

  first_or-snoc :
      (ys : List (ℕ × Option P)) (t : ℕ) (y : Option P)
      → is_none (first_or (ys ++ ((t, y) ∷ [])) none) ≡ false
  first_or-snoc [] t y = refl
  first_or-snoc (c ∷ ys) t y = refl

  first_or-snoc2 :
      (ys : List (ℕ × Option P)) (t : ℕ) (y : Option P) (zs : List (ℕ × Option P))
      → first_or ((ys ++ ((t, y) ∷ [])) ++ zs) none ≡ first_or (ys ++ ((t, y) ∷ [])) none
  first_or-snoc2 [] t y zs = refl
  first_or-snoc2 (c ∷ ys) t y zs = refl

  add_element-behind :
      (h : Heap P) (l : Plist) (x : Option P) (ys : List (ℕ × Option P)) (t : ℕ) (y : Option P)
      → Holds h l (ys ++ ((t, y) ∷ []))
      → Added h l x (ys ++ ((t, y) ∷ []))
  unfolding add_element add_behind
  add_element-behind h l x ys t y k =
      let a = length h in
      let e : Element P = record { prev = none; next = none; payload = x } in
      let (before, at_t) = Chain-split h none ((t, y) ∷ []) none ys k.chain in
      let old : live h t ≡ some (record { prev = last_or ys none; next = none; payload = y }) =
        only at_t in
      let (t_away, u, ys_apart) = Distinct-split ys [] t y k.apart in
      let a_away = Chain-Absent_fresh h (some t) none a ys (live-length h) before in
      let t_ne_a : t ≢ a = λ q. absurd (grind (arith, live-length h, old, q)) in
      let h1 = alloc h e in
      let et : Element P = record { prev = last_or ys none; next = some a; payload = y } in
      let ea : Element P = record { prev = some t; next = none; payload = x } in
      let h2 = store h1 t et in
      let h3 = store h2 a ea in
      let at_t1 : live h1 t ≡ some (record { prev = last_or ys none; next = none; payload = y }) =
        ground (arith, live-alloc h e t, old) in
      let at_a1 : live h1 a ≡ some e = ground (arith, live-alloc h e a) in
      let at_a2 : live h2 a ≡ some e = ground (arith, live-set h1 t (some et) a at_t1, at_a1) in
      let at_t2 : live h2 t ≡ some et = ground (arith, live-set h1 t (some et) t at_t1) in
      let at_a3 : live h3 a ≡ some ea = ground (arith, live-set h2 a (some ea) a at_a2) in
      let at_t3 : live h3 t ≡ some et = ground (arith, live-set h2 a (some ea) t at_a2, at_t2) in
      let c1 =
        Chain-elsewhere h h1 (some t) a (λ q ne. ground (arith, live-alloc h e q)) none ys a_away
          before in
      let c2 =
        Chain-elsewhere h1 h2 (some t) t (live-elsewhere h1 t (some et) at_t1) none ys t_away c1 in
      let c3 =
        Chain-elsewhere h2 h3 (some t) a (live-elsewhere h2 a (some ea) at_a2) none ys a_away c2 in
      let last = last_or-append ys t y none in
      added h3 (record l { tail = some a })
        (rw (k.head_ok, first_or-snoc ys t y, k.tail_ok, last, at_t1, at_a2) refl)
        (record {
          chain =
              Chain-append h3 none ((a, x) ∷ []) none (ys ++ ((t, y) ∷ []))
                (Chain-append h3 (some a) ((t, y) ∷ []) none ys c3 (cons t y [] at_t3 nil))
                (rw last (cons a x [] at_a3 nil));
          head_ok = k.head_ok ∙ sym (first_or-snoc2 ys t y ((a, x) ∷ []));
          tail_ok = sym (last_or-append (ys ++ ((t, y) ∷ [])) a x none);
          apart =
              Distinct-append (ys ++ ((t, y) ∷ [])) a x
                (Chain-Absent_fresh h none none a (ys ++ ((t, y) ∷ [])) (live-length h) k.chain)
                k.apart;
        })
    where
      only :
          Chain h none (last_or ys none) ((t, y) ∷ [])
          → live h t ≡ some (record { prev = last_or ys none; next = none; payload = y })
      only (cons _ _ _ e c) = e

  -- `ltr_int_add_element` returns on every list in memory, without a fault, and the list then holds the same elements
  -- with the new one behind them, linked in both directions.
  pub add_element-Holds :
      (h : Heap P) (l : Plist) (x : Option P) (xs : List (ℕ × Option P))
      → Holds h l xs
      → Added h l x xs
  add_element-Holds h l x [] k = add_element-empty h l x k
  add_element-Holds h l x (c ∷ xs) k =
      let (ys, t, y, e) = last_node c xs in
      subst (Added h l x) (sym e) (add_element-behind h l x ys t y (subst (Holds h l) e k))
