-- ===== src/LinkedList.antt =====
-- internal/util/linkedlist.go: a doubly linked list over a heap of nodes. An address is the index of a
-- node in `nodes`, and a new node goes to its end. Each method holds `l.mu`, so that it is one step.
-- The two results of a nil dereference and of a call that returns are `none` and `some`.
pub mod Layout
pub mod Append
mod Tests
use udplb.Base.{
  ℕ, zero, suc, ◌+◌, ◌-◌, Bool, true, false, not, ◌&&◌, Option, none, some, List, [], ◌∷◌, ◌++◌,
  nat_beq, if◌then◌else◌, get_elem?, set, length,
}

pub record Node {ℓ} (T : Type ℓ) : Type ℓ where
  pub previous : Option ℕ
  pub next : Option ℕ
  pub value : T

pub record LinkedList {ℓ} (T : Type ℓ) : Type ℓ where
  pub nodes : List (Node T)
  pub head : Option ℕ
  pub tail : Option ℕ
  pub length : ℕ
  pub capacity : ℕ

module _ {ℓ} {T : Type ℓ} where
  abbrev pub new_linked_list : ℕ → LinkedList T
  new_linked_list capacity = record {
    nodes = [];
    head = none;
    tail = none;
    length = 0;
    capacity = capacity;
  }

  -- The write through `oldTail`, the node at `t`.
  abbrev pub link_after : ℕ → Option (Node T) → T → LinkedList T → Option (LinkedList T)
  link_after t none v l = none
  link_after t (some old) v l =
      let n = length l.nodes in
      some (record l {
        nodes =
            set l.nodes t (record old { next = some n })
            ++ ((record { previous = some t; next = none; value = v }) ∷ []);
        tail = some n;
        length = l.length + 1;
      })

  -- The part of `Append` behind the pop, for `l.tail`.
  abbrev pub push_at : Option ℕ → T → LinkedList T → Option (LinkedList T)
  push_at none v l =
      let n = length l.nodes in
      some (record l {
        nodes = l.nodes ++ ((record { previous = none; next = none; value = v }) ∷ []);
        head = some n;
        tail = some n;
        length = l.length + 1;
      })
  push_at (some t) v l = link_after t (get_elem? l.nodes t) v l

  -- `l.head.Next()`; `none` is the dereference of nil.
  abbrev pub next_of : List (Node T) → Option ℕ → Option (Option ℕ)
  next_of nodes none = none
  next_of nodes (some h) = elim (get_elem? nodes h) [ none ↦ none | some node ↦ some node.next ]

  abbrev pub pop_to : Option (Option ℕ) → T → LinkedList T → Option (LinkedList T)
  pop_to none v l = none
  pop_to (some h) v l = push_at l.tail v (record l { head = h; length = l.length - 1 })

  -- `Append` on a full list of that length.
  abbrev pub append_full : ℕ → T → LinkedList T → Option (LinkedList T)
  append_full zero v l = some l
  append_full (suc zero) v l =
      push_at none v (record l { head = none; tail = none; length = l.length - 1 })
  append_full (suc (suc n)) v l = pop_to (next_of l.nodes l.head) v l

  unfoldable pub append : T → LinkedList T → Option (LinkedList T)
  append v l =
      if not (nat_beq l.capacity 0) && nat_beq l.length l.capacity
      then append_full l.length v l
      else push_at l.tail v l

  -- The data from an address on, as a reader meets it by `Next`, for at most `fuel` nodes.
  unfoldable pub walk : ℕ → List (Node T) → Option ℕ → List T
  walk fuel nodes none = []
  walk zero nodes (some a) = []
  walk (suc fuel) nodes (some a) = elim (get_elem? nodes a) [
    | none ↦ []
    | some node ↦ node.value ∷ walk fuel nodes node.next
  ]
