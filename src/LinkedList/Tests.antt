-- ===== src/LinkedList/Tests.antt =====
-- Runs of the linked list, and the theorems at concrete inputs.
use udplb.Base.{ℕ, ◌-◌, ◌≡◌, refl, arith, none, some, List, [], ◌∷◌, length, drop}
use udplb.LinkedList.{LinkedList, new_linked_list, append, walk}
use udplb.LinkedList.Layout.{Holds}
use udplb.LinkedList.Append.{Returned, appended, append-Returned, append_all, walk-append_all}

abbrev items : List ℕ
items = 5 ∷ 6 ∷ 7 ∷ []

walk-append_all_example :
    (l : LinkedList ℕ) × (append_all items (new_linked_list 2) ≡ some l)
    × (walk 2 l.nodes l.head ≡ drop (length items - 2) items)
    × (l.length ≡ length (drop (length items - 2) items))
walk-append_all_example = walk-append_all 2 2 items (omega arith) (omega arith)

abbrev one_item : LinkedList ℕ
one_item = record {
  nodes = (record { previous = none; next = none; value = 5 }) ∷ [];
  head = some 0;
  tail = some 0;
  length = 1;
  capacity = 1;
}

one_item-Holds : Holds one_item (5 ∷ [])
one_item-Holds = record {
  start = 0;
  linked = ((none, refl), tt);
  fits = refl;
  head_at = refl;
  tail_at = refl;
  counted = refl;
}

append-Returned_example : Returned one_item (appended 1 (5 ∷ []) 6) (append 6 one_item)
append-Returned_example = append-Returned (5 ∷ []) 6 one_item one_item-Holds
