-- ===== src/Tests/ListTests.antt =====
-- Tests and examples for src/list.c.
use linux_track.Prelude.{ℕ, ◌≡◌, refl, Option, some, none, List, [], ◌∷◌, arith}
use linux_track.Prelude.Exec.{ok, ◌>>=◌}
use linux_track.Prelude.Cells.{live}
use linux_track.DoublyLinked.{
  Heap, Plist, create_list, add_element, add_behind, is_empty, init_iterator, strings, free_list,
  free_elements, get_next, list2string_list,
}
use linux_track.DoublyLinked.Links.{nil, cons, Holds}
use linux_track.DoublyLinked.Add.{Added, add_element-Holds}
use linux_track.DoublyLinked.Delete.{Deleted, delete_current-Holds}

-- Two strings are added to an empty list and taken out as an array.
added_then_taken :
    (do
      (h1, l1) ← add_element {P = ℕ} [] create_list (some 7)
      (h2, l2) ← add_element h1 l1 (some 8)
      list2string_list 3 h2 l2)
    ≡ ok (2, some 7 ∷ some 8 ∷ none ∷ [], none ∷ none ∷ [])
unfolding create_list add_element add_behind list2string_list strings free_list free_elements
    get_next is_empty init_iterator live
added_then_taken = refl

abbrev two : Heap ℕ
two =
    some (record { prev = none; next = some 1; payload = some 7 })
    ∷ some (record { prev = some 0; next = none; payload = some 8 })
    ∷ []

abbrev two_list : Plist
two_list = record { head = some 0; tail = some 1 }

abbrev two_nodes : List (ℕ × Option ℕ)
two_nodes = (0, some 7) ∷ (1, some 8) ∷ []

two-Holds : Holds two two_list two_nodes
unfolding live
two-Holds = record {
  chain = cons 0 (some 7) ((1, some 8) ∷ []) refl (cons 1 (some 8) [] refl nil);
  head_ok = refl;
  tail_ok = refl;
  apart = (((λ e. omega arith), tt), (tt, tt));
}

add_element-Holds_example : Added two two_list (some 9) two_nodes
add_element-Holds_example = add_element-Holds two two_list (some 9) two_nodes two-Holds

-- The iterator is past the end, so the last element goes.
delete_current-Holds_example : Deleted two two_list none 1 (some 8) ((0, some 7) ∷ [])
delete_current-Holds_example =
    delete_current-Holds two two_list ((0, some 7) ∷ []) 1 (some 8) [] two-Holds
