-- ===== src/DoublyLinked/Links.antt =====
-- Which heaps hold a chain of elements.
use linux_track.Prelude.{
  ℕ, ◌≡◌, ◌≢◌, refl, sym, ◌∙◌, Option, some, none, List, [], ◌∷◌, ◌++◌, set, arith,
}
use linux_track.Prelude.Cells.{live, live-set}
use linux_track.DoublyLinked.{Element, Heap, Plist}

module _ {P : Type 0} where
  -- The address of the first node, or what follows.
  abbrev pub first_or : List (ℕ × Option P) → Option ℕ → Option ℕ
  first_or [] n = n
  first_or ((a, x) ∷ xs) n = some a

  abbrev pub last_or : List (ℕ × Option P) → Option ℕ → Option ℕ
  last_or [] p = p
  last_or ((a, x) ∷ xs) p = last_or xs (some a)

  -- The nodes lie at these addresses with these payloads, between the links `p` and `n`.
  pub data Chain (h : Heap P) (n : Option ℕ) : Option ℕ → List (ℕ × Option P) → Type 0 where
    nil : {p : Option ℕ} → Chain h n p []
    cons :
        {p : Option ℕ} (a : ℕ) (x : Option P) (xs : List (ℕ × Option P))
        → live h a ≡ some (record { prev = p; next = first_or xs n; payload = x })
        → Chain h n (some a) xs
        → Chain h n p ((a, x) ∷ xs)

  -- No node of the list lies at the address.
  abbrev pub Absent : ℕ → List (ℕ × Option P) → Type 0
  Absent b [] = Unit {0}
  Absent b ((a, x) ∷ xs) = (a ≢ b) × Absent b xs

  abbrev pub Distinct : List (ℕ × Option P) → Type 0
  Distinct [] = Unit {0}
  Distinct ((a, x) ∷ xs) = Absent a xs × Distinct xs

  -- A list in memory: its elements, from head to tail.
  pub record Holds (h : Heap P) (l : Plist) (xs : List (ℕ × Option P)) : Type 0 where
    pub chain : Chain h none none xs
    pub head_ok : l.head ≡ first_or xs none
    pub tail_ok : l.tail ≡ last_or xs none
    pub apart : Distinct xs

  -- What is written elsewhere leaves a chain.
  pub Chain-elsewhere :
      (h h' : Heap P) (n : Option ℕ) (b : ℕ)
      → ((q : ℕ) → q ≢ b → live h' q ≡ live h q)
      → (p : Option ℕ) (xs : List (ℕ × Option P)) → Absent b xs
      → Chain h n p xs
      → Chain h' n p xs
  Chain-elsewhere h h' n b same p [] away nil = nil
  Chain-elsewhere h h' n b same p (_ ∷ _) (away, rest) (cons a x xs e c) =
      cons a x xs (same a away ∙ e) (Chain-elsewhere h h' n b same (some a) xs rest c)

  pub Chain-Absent_fresh :
      (h : Heap P) (n p : Option ℕ) (b : ℕ) (xs : List (ℕ × Option P))
      → live h b ≡ none
      → Chain h n p xs
      → Absent b xs
  Chain-Absent_fresh h n p b [] f nil = tt
  Chain-Absent_fresh h n p b (_ ∷ _) f (cons a x xs e c) =
      ((λ q. cc), Chain-Absent_fresh h n (some a) b xs f c)

  pub live-elsewhere :
      (h : Heap P) (b : ℕ) (o : Option (Element P)) {e : Element P}
      → live h b ≡ some e
      → (q : ℕ) → q ≢ b
      → live (set h b o) q ≡ live h q
  live-elsewhere h b o e q ne = ground (arith, live-set h b o q e)

  first_or-append :
      (xs ys : List (ℕ × Option P)) (n : Option ℕ)
      → first_or (xs ++ ys) n ≡ first_or xs (first_or ys n)
  first_or-append [] ys n = refl
  first_or-append (x ∷ xs) ys n = refl

  -- A chain is one of the first nodes, up to the others' first, and one of the others behind them.
  pub Chain-append :
      (h : Heap P) (n : Option ℕ) (ys : List (ℕ × Option P)) (p : Option ℕ)
      (xs : List (ℕ × Option P))
      → Chain h (first_or ys n) p xs
      → Chain h n (last_or xs p) ys
      → Chain h n p (xs ++ ys)
  Chain-append h n ys p [] nil d = d
  Chain-append h n ys p (_ ∷ _) (cons a x xs e c) d =
      cons a x (xs ++ ys) (rw (first_or-append xs ys n) e) (Chain-append h n ys (some a) xs c d)

  pub Chain-split :
      (h : Heap P) (n : Option ℕ) (ys : List (ℕ × Option P)) (p : Option ℕ)
      (xs : List (ℕ × Option P))
      → Chain h n p (xs ++ ys)
      → Chain h (first_or ys n) p xs × Chain h n (last_or xs p) ys
  Chain-split h n ys p [] c = (nil, c)
  Chain-split h n ys p (_ ∷ xs) (cons a x _ e c) =
      let (c1, c2) = Chain-split h n ys (some a) xs c in
      (cons a x xs (e ∙ rw (first_or-append xs ys n) refl) c1, c2)

  pub last_or-append :
      (xs : List (ℕ × Option P)) (a : ℕ) (x : Option P) (p : Option ℕ)
      → last_or (xs ++ ((a, x) ∷ [])) p ≡ some a
  last_or-append [] a x p = refl
  last_or-append ((b, y) ∷ xs) a x p = last_or-append xs a x (some b)

  pub Distinct-split :
      (xs ys : List (ℕ × Option P)) (b : ℕ) (y : Option P)
      → Distinct (xs ++ ((b, y) ∷ ys))
      → Absent b xs × Absent b ys × Distinct (xs ++ ys)
  Distinct-split [] ys b y d = (tt, d.0, d.1)
  Distinct-split ((a, x) ∷ xs) ys b y d =
      let (away, others, rest) = Distinct-split xs ys b y d.1 in
      let (ne, apart) = Absent-split xs d.0 in (((λ e. ne (sym e)), away), others, (apart, rest))
    where
      Absent-split :
          (zs : List (ℕ × Option P))
          → Absent a (zs ++ ((b, y) ∷ ys))
          → (b ≢ a) × Absent a (zs ++ ys)
      Absent-split [] no_a = no_a
      Absent-split (_ ∷ zs) no_a = let (ne, rest) = Absent-split zs no_a.1 in (ne, (no_a.0, rest))

  pub Distinct-append :
      (xs : List (ℕ × Option P)) (b : ℕ) (y : Option P)
      → Absent b xs
      → Distinct xs
      → Distinct (xs ++ ((b, y) ∷ []))
  Distinct-append [] b y away d = (tt, tt)
  Distinct-append ((a, x) ∷ xs) b y away d =
      (Absent-append xs d.0, Distinct-append xs b y away.1 d.1)
    where
      Absent-append : (zs : List (ℕ × Option P)) → Absent a zs → Absent a (zs ++ ((b, y) ∷ []))
      Absent-append [] no_a = ((λ e. away.0 (sym e)), tt)
      Absent-append (_ ∷ zs) no_a = (no_a.0, Absent-append zs no_a.1)
