-- ===== src/LinkedList/Append.antt =====
-- internal/util/linkedlist.go: what `Append` leaves, and what a reader meets.
use udplb.Base.{
  ℕ, zero, suc, ◌+◌, ◌-◌, ◌<◌, ◌≤◌, ◌≡◌, refl, ap, ◌∙◌, true, false, not, ◌&&◌, Option, none, some,
  List, [], ◌∷◌, ◌++◌, get_elem?, set, length, drop, arith, length-append, length-set, nat_beq,
  get_elem?_lt, get_elem?-append_length, if◌then◌else◌, Bool-cases, inl, inr, length-drop,
}
use udplb.RingBuffer.Queue
use udplb.RingBuffer.Queue.{push}
use udplb.RingBuffer.History.{push_all, push_all-new}
use udplb.LinkedList.{
  Node, LinkedList, new_linked_list, append, append_full, push_at, link_after, next_of, walk,
}
use udplb.LinkedList.Layout.{Linked, Linked-link, Holds, address, link}

module _ {ℓ} {T : Type ℓ} where
  -- `Append` came back with a list that holds `xs`, of the same capacity.
  abbrev pub Returned : LinkedList T → List T → Option (LinkedList T) → Type ℓ
  Returned l xs r = (l' : LinkedList T) × (r ≡ some l') × Holds l' xs × (l'.capacity ≡ l.capacity)

  push_at-empty : (v : T) (l : LinkedList T) → l.length ≡ 0 → Returned l (v ∷ []) (push_at none v l)
  push_at-empty v l e =
      let new : Node T = record { previous = none; next = none; value = v } in
      (
        record l {
          nodes = l.nodes ++ (new ∷ []);
          head = some (length l.nodes);
          tail = some (length l.nodes);
          length = l.length + 1;
        },
        refl,
        record {
          start = length l.nodes;
          linked = ((none, get_elem?-append_length l.nodes new []), tt);
          fits = omega (arith, length-append l.nodes (new ∷ []));
          head_at = refl;
          tail_at = ap some (omega (arith, length-append l.nodes (new ∷ [])));
          counted = omega arith;
        },
        refl,
      )

  link_after-Returned :
      (x : T) (xs : List T) (v : T) (l : LinkedList T) (old : Node T)
      → Holds l (x ∷ xs)
      → get_elem? l.nodes (length l.nodes - 1) ≡ some old
      → Returned l ((x ∷ xs) ++ (v ∷ [])) (link_after (length l.nodes - 1) (some old) v l)
  link_after-Returned x xs v l old h hold =
      let t = length l.nodes - 1 in
      let fits = h.fits in
      let counted = h.counted in
      let grown : length (link l.nodes t old v) ≡ length l.nodes + 1 = omega (
        arith,
        length-append (set l.nodes t (record old { next = some (length l.nodes) })) _,
        length-set l.nodes t (record old { next = some (length l.nodes) }),
      ) in
      (
        _,
        refl,
        record {
          start = h.start;
          linked = Linked-link l.nodes h.start t old x xs v (omega arith) hold fits h.linked;
          fits = omega (arith, length-append xs (v ∷ []));
          head_at = h.head_at;
          tail_at = ap some (omega arith);
          counted = omega (arith, length-append xs (v ∷ []));
        },
        refl,
      )

  push_at-Returned :
      (xs : List T) (v : T) (l : LinkedList T)
      → Holds l xs
      → Returned l (xs ++ (v ∷ [])) (push_at l.tail v l)
  push_at-Returned [] v l h = rw h.tail_at (push_at-empty v l h.counted)
  push_at-Returned (x ∷ xs) v l h =
      let fits = h.fits in
      let (old, hold) = get_elem?_lt l.nodes (length l.nodes - 1) (omega arith) in
      rw (h.tail_at, hold, link_after) (link_after-Returned x xs v l old h hold)

  -- What `Append` makes of a list of at most `capacity` items; a capacity of 0 is none.
  abbrev pub appended : ℕ → List T → T → List T
  appended zero xs v = xs ++ (v ∷ [])
  appended (suc c) xs v = push (suc c) xs v

  popped :
      (x y : T) (ys : List T) (l : LinkedList T)
      → Holds l (x ∷ y ∷ ys)
      → (h : Option ℕ) × (next_of l.nodes l.head ≡ some h)
        × Holds (record l { head = h; length = l.length - 1 }) (y ∷ ys)
  popped x y ys l h =
      let fits = h.fits in
      let counted = h.counted in
      let ((p, here), rest) = h.linked in
      (
        some (suc h.start),
        rw (h.head_at, next_of, here) refl,
        record {
          start = suc h.start;
          linked = rest;
          fits = omega arith;
          head_at = refl;
          tail_at = h.tail_at;
          counted = omega arith;
        },
      )

  append_full-Returned :
      (n : ℕ) (xs : List T) (v : T) (l : LinkedList T)
      → Holds l xs
      → n ≡ length xs
      → 0 < n
      → Returned l (Queue.tail xs ++ (v ∷ [])) (append_full n v l)
  append_full-Returned zero xs v l h e pos = absurd (omega arith)
  append_full-Returned (suc n) [] v l h e pos = absurd (omega arith)
  append_full-Returned (suc zero) (x ∷ []) v l h e pos =
      let counted = h.counted in
      push_at-empty v (record l { head = none; tail = none; length = l.length - 1 }) (omega arith)
  append_full-Returned (suc zero) (x ∷ y ∷ ys) v l h e pos = absurd (omega arith)
  append_full-Returned (suc (suc n)) (x ∷ []) v l h e pos = absurd (omega arith)
  append_full-Returned (suc (suc n)) (x ∷ y ∷ ys) v l h e pos =
      let (a, q, rest) = popped x y ys l h in
      rw q (push_at-Returned (y ∷ ys) v (record l { head = a; length = l.length - 1 }) rest)

  at_capacity :
      (c : ℕ) (xs : List T) (v : T) (l : LinkedList T)
      → Holds l xs
      → l.capacity ≡ c
      → Returned l (appended c xs v) (append v l)
  unfolding append push
  at_capacity zero xs v l h e =
      let test : (not (nat_beq l.capacity 0) && nat_beq l.length l.capacity) ≡ false =
        ground arith in
      rw (test, if◌then◌else◌) (push_at-Returned xs v l h)
  at_capacity (suc c) xs v l h e =
      let counted = h.counted in
      elim (Bool-cases (nat_beq (length xs) (suc c))) [
        | inl q ↦
            let test : (not (nat_beq l.capacity 0) && nat_beq l.length l.capacity) ≡ true =
              ground arith in
            let pos : 0 < l.length = ground arith in
            rw (test, q, if◌then◌else◌) (append_full-Returned l.length xs v l h counted pos)
        | inr q ↦
            let test : (not (nat_beq l.capacity 0) && nat_beq l.length l.capacity) ≡ false =
              ground arith in
            rw (test, q, if◌then◌else◌) (push_at-Returned xs v l h)
      ]

  -- On a list that holds `xs`, `Append` returns, and the list then holds `xs` with the new item at the
  -- end, without its first item exactly if it was full; the capacity is unchanged, and 0 is none.
  pub append-Returned :
      (xs : List T) (v : T) (l : LinkedList T)
      → Holds l xs
      → Returned l (appended l.capacity xs v) (append v l)
  append-Returned xs v l h = at_capacity l.capacity xs v l h refl

  -- A reader that starts at the head and follows `next` meets the items in order and then nil.
  walk-Linked :
      (xs : List T) (a k n : ℕ) (nodes : List (Node T))
      → Linked nodes a xs
      → n ≡ length xs + k
      → walk n nodes (address a xs) ≡ xs
  unfolding walk
  walk-Linked [] a k zero nodes h e = refl
  walk-Linked [] a k (suc n) nodes h e = refl
  walk-Linked (x ∷ xs) a k zero nodes h e = absurd (omega arith)
  walk-Linked (x ∷ xs) a k (suc n) nodes h e =
      let ((p, here), rest) = h in
      rw (here, walk) (ap (λ l. x ∷ l) (walk-Linked xs (suc a) k n nodes rest (omega arith)))

  -- `Append` for each item of a list.
  unfoldable pub append_all : List T → LinkedList T → Option (LinkedList T)
  append_all [] l = some l
  append_all (v ∷ vs) l = elim (append v l) [ none ↦ none | some l' ↦ append_all vs l' ]

  append_all-Returned :
      (c : ℕ) (vs xs : List T) (l : LinkedList T)
      → Holds l xs
      → l.capacity ≡ suc c
      → Returned l (push_all (suc c) xs vs) (append_all vs l)
  unfolding append_all
  append_all-Returned c [] xs l h e = (l, refl, h, refl)
  append_all-Returned c (v ∷ vs) xs l h e =
      let (l', q, h', cap) = at_capacity (suc c) xs v l h e in
      let (l'', q', h'', cap') = append_all-Returned c vs (push (suc c) xs v) l' h' (cap ∙ e) in
      (l'', rw (q, append_all) q', h'', cap' ∙ cap)

  -- After appending the items of a list to a new linked list of positive capacity, a reader that
  -- follows `next` from the head for at least as many nodes as the capacity meets the last `capacity`
  -- items (all, if there are fewer), in order, and then nil; and `Length` is their number.
  pub walk-append_all :
      (capacity fuel : ℕ) (vs : List T)
      → 0 < capacity
      → capacity ≤ fuel
      → (l : LinkedList T) × (append_all vs (new_linked_list capacity) ≡ some l)
        × (walk fuel l.nodes l.head ≡ drop (length vs - capacity) vs)
        × (l.length ≡ length (drop (length vs - capacity) vs))
  walk-append_all zero fuel vs pos enough = absurd (omega arith)
  walk-append_all (suc c) fuel vs pos enough =
      let (l, q, h, cap) =
        append_all-Returned c vs [] (new_linked_list (suc c))
          (record {
            start = 0;
            linked = tt;
            fits = refl;
            head_at = refl;
            tail_at = refl;
            counted = refl;
          })
          refl in
      let kept = push_all-new (suc c) vs pos in
      let held : length (push_all (suc c) [] vs) ≡ length (drop (length vs - suc c) vs) =
        ap length kept in
      (
        l,
        q,
        rw h.head_at (
              walk-Linked (push_all (suc c) [] vs) h.start (fuel - length (push_all (suc c) [] vs))
                fuel l.nodes h.linked (omega (arith, length-drop (length vs - suc c) vs)))
            ∙ kept,
        h.counted ∙ held,
      )
