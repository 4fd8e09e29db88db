-- ===== src/DoublyLinked.antt =====
-- src/list.c: a doubly linked list of payload pointers, on a heap of its elements. A null pointer is
-- `none`. An iterator is its `elem`; the list of its `parent` is passed along.
pub mod Links
pub mod Add
pub mod Walk
pub mod Relink
pub mod Delete
use linux_track.Prelude.{
  ℕ, zero, suc, ◌+◌, Bool, true, false, Option, some, none, List, [], ◌∷◌, ◌++◌, if◌then◌else◌,
  length, set, ◌==◌, ltb, map,
}
use linux_track.Prelude.Exec.{Exec, ok, fault, out_of_fuel, ◌>>=◌, to_exec}
use linux_track.Prelude.Cells.{load, store, free, alloc}

-- `list_element`
pub record Element (P : Type 0) : Type 0 where
  pub prev : Option ℕ
  pub next : Option ℕ
  pub payload : Option P

abbrev pub Heap : Type 0 → Type 0
Heap P = List (Option (Element P))

-- `list`
pub record Plist : Type 0 where
  pub head : Option ℕ
  pub tail : Option ℕ

abbrev pub same : Option ℕ → Option ℕ → Bool
same none none = true
same (some a) (some b) = a == b
same _ _ = false

unfoldable pub create_list : Plist
create_list = record { head = none; tail = none }

abbrev pub is_none {ℓ} : {A : Type ℓ} → Option A → Bool
is_none none = true
is_none (some a) = false

unfoldable pub is_empty : Plist → Bool
is_empty l = is_none l.head

unfoldable pub init_iterator : Plist → Option ℕ
init_iterator l = l.head

unfoldable pub init_rev_iterator : Plist → Option ℕ
init_rev_iterator l = l.tail

module _ {P : Type 0} where
  -- The element of a list that is not empty is hung behind its tail; without a tail the assertion fails.
  unfoldable pub add_behind : Heap P → Plist → ℕ → Option ℕ → Exec (Heap P × Plist)
  add_behind h l a none = fault
  add_behind h l a (some tail) = do
    t ← load h tail
    let h1 = store h tail (record t { next = some a })
    e ← load h1 a
    ok (store h1 a (record e { prev = some tail }), record l { tail = some a })

  unfoldable pub add_element : Heap P → Plist → Option P → Exec (Heap P × Plist)
  unfolding add_behind
  add_element h l payload =
      let a = length h in
      let h1 = alloc h (record { prev = none; next = none; payload = payload }) in
      if is_none l.head
      then ok (h1, record { head = some a; tail = some a })
      else add_behind h1 l a l.tail

  unfoldable pub get_next : Heap P → Option ℕ → Exec (Option P × Option ℕ)
  get_next h none = ok (none, none)
  get_next h (some a) = do e ← load h a; ok (e.payload, e.next)

  unfoldable pub get_prev : Heap P → Option ℕ → Exec (Option P × Option ℕ)
  get_prev h none = ok (none, none)
  get_prev h (some a) = do e ← load h a; ok (e.payload, e.prev)

  unfoldable pub get_current : Heap P → Option ℕ → Exec (Option P)
  get_current h none = ok none
  get_current h (some a) = do e ← load h a; ok e.payload

  -- The element to delete: the one before the iterator's.
  unfoldable pub current_of : Heap P → Plist → Option ℕ → Exec (Option ℕ)
  current_of h l none = ok l.tail
  current_of h l (some a) = if same (some a) l.head then ok l.head else (do e ← load h a; ok e.prev)

  abbrev pub link_next : Heap P → Option ℕ → Option ℕ → Exec (Heap P)
  link_next h none next = ok h
  link_next h (some a) next = do e ← load h a; ok (store h a (record e { next = next }))

  abbrev pub link_prev : Heap P → Option ℕ → Option ℕ → Exec (Heap P)
  link_prev h none prev = ok h
  link_prev h (some a) prev = do e ← load h a; ok (store h a (record e { prev = prev }))

  unfoldable pub delete_element : Heap P → Plist → Option ℕ → Exec (Option P × Heap P × Plist)
  delete_element h l none = ok (none, h, l)
  delete_element h l (some current) = do
    c ← load h current
    let l1 = if same l.head (some current) then record l { head = c.next } else l
    let l2 = if same l1.tail (some current) then record l1 { tail = c.prev } else l1
    h1 ← link_next h c.prev c.next
    h2 ← link_prev h1 c.next c.prev
    ok (c.payload, free h2 current, l2)

  unfoldable pub delete_current : Heap P → Plist → Option ℕ → Exec (Option P × Heap P × Plist)
  unfolding is_empty current_of delete_element
  delete_current h l elem =
      if is_empty l
      then ok (none, h, l)
      else (do current ← current_of h l elem; delete_element h l current)

  -- The loop of `ltr_int_free_list` on fuel, with the payloads it frees.
  unfoldable pub free_elements : ℕ → Bool → Heap P → Option ℕ → Exec (List (Option P) × Heap P)
  free_elements zero free_payload h head = out_of_fuel
  free_elements (suc n) free_payload h none = ok ([], h)
  free_elements (suc n) free_payload h (some a) = do
    e ← load h a
    (freed, h') ← free_elements n free_payload (free h a) e.next
    ok (if free_payload then e.payload ∷ freed else freed, h')

  unfoldable pub free_list : ℕ → Bool → Heap P → Plist → Exec (List (Option P) × Heap P)
  unfolding free_elements
  free_list fuel free_payload h l = free_elements fuel free_payload h l.head

  abbrev pub collect : Option P → Exec (List P) → Exec (List P)
  collect none rest = ok []
  collect (some id) rest = do ids ← rest; ok (id ∷ ids)

  -- The strings that the iterator gives until it gives a null pointer.
  unfoldable pub strings : ℕ → Heap P → Option ℕ → Exec (List P)
  unfolding get_next
  strings zero h i = out_of_fuel
  strings (suc n) h i = do (id, i') ← get_next h i; collect id (strings n h i')

  -- The count returned, the array, which ends with the null pointer, and the heap. The array has room
  -- for the strings that a first pass counts, and one more.
  unfoldable pub list2string_list : ℕ → Heap P → Plist → Exec (ℕ × List (Option P) × Heap P)
  unfolding strings free_list init_iterator
  list2string_list fuel h l = do
    counted ← (if is_empty l then ok [] else strings fuel h (init_iterator l))
    ids ← strings fuel h (init_iterator l)
    if ltb (length counted) (length ids) then fault else (do
      (freed, h') ← free_list fuel false h l
      ok (length ids, map some ids ++ (none ∷ []), h'))
