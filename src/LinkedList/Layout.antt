-- ===== src/LinkedList/Layout.antt =====
-- internal/util/linkedlist.go: the nodes of a list stand in a row at the end of the heap.
use udplb.Base.{
  get_elem?-set_self, get_elem?-set_ne, ℕ, suc, ◌+◌, ◌-◌, ◌<◌, ◌≡◌, ◌≢◌, sym, ap, ◌∙◌, Option, none,
  some, List, [], ◌∷◌, ◌++◌, get_elem?, set, length, arith, length-set, get_elem?-append_lt,
  get_elem?-append_length,
}
use udplb.LinkedList.{Node, LinkedList}

module _ {ℓ} {T : Type ℓ} where
  -- The address behind `a` in a row of which `xs` is left.
  abbrev pub address : ℕ → List T → Option ℕ
  address a [] = none
  address a (x ∷ xs) = some a

  abbrev pub last_address : ℕ → List T → Option ℕ
  last_address n [] = none
  last_address n (x ∷ xs) = some (n - 1)

  -- The nodes from `a` to the end of the heap carry `xs`, each linked to the one behind it.
  abbrev pub Linked : List (Node T) → ℕ → List T → Type ℓ
  Linked nodes a [] = Unit
  Linked nodes a (x ∷ xs) =
      ((p : Option ℕ) × (get_elem? nodes a
          ≡ some (record { previous = p; next = address (suc a) xs; value = x })))
      × Linked nodes (suc a) xs

  abbrev pub link : List (Node T) → ℕ → Node T → T → List (Node T)
  link nodes t old v =
      set nodes t (record old { next = some (length nodes) })
      ++ ((record { previous = some t; next = none; value = v }) ∷ [])

  link-old :
      (nodes : List (Node T)) (t : ℕ) (old : Node T) (v : T)
      → t < length nodes
      → get_elem? (link nodes t old v) t ≡ some (record old { next = some (length nodes) })
  link-old nodes t old v h =
      get_elem?-append_lt (set nodes t (record old { next = some (length nodes) })) _ t
        (omega (arith, length-set nodes t (record old { next = some (length nodes) })))
      ∙ get_elem?-set_self nodes t (record old { next = some (length nodes) }) h

  link-new :
      (nodes : List (Node T)) (t : ℕ) (old : Node T) (v : T)
      → get_elem? (link nodes t old v) (length nodes)
        ≡ some (record { previous = some t; next = none; value = v })
  link-new nodes t old v =
      let linked = set nodes t (record old { next = some (length nodes) }) in
      ap (get_elem? (link nodes t old v)) (sym (length-set nodes t _))
      ∙ get_elem?-append_length linked (record { previous = some t; next = none; value = v }) []

  link-other :
      (nodes : List (Node T)) (t i : ℕ) (old : Node T) (v : T)
      → i < length nodes
      → t ≢ i
      → get_elem? (link nodes t old v) i ≡ get_elem? nodes i
  link-other nodes t i old v h ne =
      get_elem?-append_lt (set nodes t (record old { next = some (length nodes) })) _ i
        (omega (arith, length-set nodes t (record old { next = some (length nodes) })))
      ∙ get_elem?-set_ne nodes t i (record old { next = some (length nodes) }) ne

  abbrev or_else : Node T → Option (Node T) → Node T
  or_else d none = d
  or_else d (some o) = o

  pub Linked-link :
      (nodes : List (Node T)) (a t : ℕ) (old : Node T) (x : T) (xs : List T) (v : T)
      → suc t ≡ length nodes
      → get_elem? nodes t ≡ some old
      → a + length (x ∷ xs) ≡ length nodes
      → Linked nodes a (x ∷ xs)
      → Linked (link nodes t old v) a ((x ∷ xs) ++ (v ∷ []))
  Linked-link nodes a t old x [] v ht hold fits h =
      let ((p, here), _) = h in
      let at : a ≡ t = omega arith in
      let behind : length nodes ≡ suc a = omega arith in
      let same : old ≡ record { previous = p; next = none; value = x } =
        ap (or_else old) (sym hold ∙ ap (get_elem? nodes) (sym at) ∙ here) in
      (
        (
          p,
          ap (get_elem? (link nodes t old v)) at
              ∙ link-old nodes t old v (omega arith)
              ∙ (λ i. some (record (same i) { next = some (behind i) })),
        ),
        ((some t, ap (get_elem? (link nodes t old v)) (sym behind) ∙ link-new nodes t old v), tt),
      )
  Linked-link nodes a t old x (y ∷ ys) v ht hold fits h =
      let ((p, here), rest) = h in
      (
        (p, link-other nodes t a old v (omega arith) (ground arith) ∙ here),
        Linked-link nodes (suc a) t old y ys v ht hold (omega arith) rest,
      )

  -- The row, with the list's two pointers and its length.
  pub record Holds (l : LinkedList T) (xs : List T) : Type ℓ where
    pub start : ℕ
    pub linked : Linked l.nodes start xs
    pub fits : start + length xs ≡ length l.nodes
    pub head_at : l.head ≡ address start xs
    pub tail_at : l.tail ≡ last_address (length l.nodes) xs
    pub counted : l.length ≡ length xs
