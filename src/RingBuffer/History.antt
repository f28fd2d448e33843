-- ===== src/RingBuffer/History.antt =====
-- A history of writes to a `RingBuffer`, read back afterwards.
use udplb.Base.{
  ℕ, zero, suc, ◌+◌, ◌-◌, ◌<◌, ◌≡◌, refl, sym, ◌∙◌, Option, none, some, List, [], ◌∷◌, ◌++◌, arith,
  length, drop, length-append, length-drop, drop-append_le, drop-nil,
}
use mathlib.Core.Path.{subst}
use mathlib.Core.List.{append-nil, append_assoc}
use native.Mathlib.Decide.{dec_lt}
use udplb.RingBuffer.{RingBuffer, new_ring_buffer, write, receive, next}
use udplb.RingBuffer.Queue
use udplb.RingBuffer.Queue.{push}
use udplb.RingBuffer.Refine.{push-room}
use udplb.RingBuffer.Fifo.{
  Stores, IsValid, write-push, next-Stores, receive-none, new_ring_buffer-IsValid,
}

module _ {ℓ} {A : Type ℓ} where
  -- A producer that writes a list of items, and a consumer that calls `Next` n times.
  unfoldable pub write_all : List A → RingBuffer A → Option (RingBuffer A)
  write_all [] rb = some rb
  write_all (v ∷ vs) rb = elim (write v rb) [ none ↦ none | some rb' ↦ write_all vs rb' ]

  unfoldable pub read_n : ℕ → RingBuffer A → Option (List A × RingBuffer A)
  read_n zero rb = some ([], rb)
  read_n (suc n) rb = elim (next rb) [
    | none ↦ none
    | some (x, rb') ↦ elim (read_n n rb') [ none ↦ none | some (xs, rb'') ↦ some (x ∷ xs, rb'') ]
  ]

  pub read_n-Stores :
      (d : ℕ) (q : List A) (rb : RingBuffer A)
      → Stores d rb q
      → (rb' : RingBuffer A) × (read_n (length q) rb ≡ some (q, rb')) × Stores d rb' []
  unfolding read_n
  read_n-Stores d [] rb s = (rb, refl, s)
  read_n-Stores d (x ∷ q) rb s =
      let (rb1, e, s1) = next-Stores d x rb q s in
      let (rb2, e', s2) = read_n-Stores d q rb1 s1 in (rb2, rw (e, read_n, e', read_n), s2)

  -- The items left of a history of writes.
  abbrev pub push_all : ℕ → List A → List A → List A
  push_all size q [] = q
  push_all size q (v ∷ vs) = push_all size (push size q v) vs

  pub write_all-push_all :
      (vs : List A) (rb : RingBuffer A) (q : List A)
      → IsValid rb q
      → (rb' : RingBuffer A) × (write_all vs rb ≡ some rb') × IsValid rb' (push_all rb.size q vs)
  unfolding write_all
  write_all-push_all [] rb q s = (rb, refl, s)
  write_all-push_all (v ∷ vs) rb q s =
      let (rb1, e, s1, z) = write-push v rb q s in
      let (rb2, e', s2) = write_all-push_all vs rb1 (push rb.size q v) s1 in
      (rb2, rw (e, write_all) e', subst (λ n. IsValid rb2 (push_all n (push rb.size q v) vs)) z s2)

  tail-drop : (n : ℕ) (xs : List A) → Queue.tail (drop n xs) ≡ drop (suc n) xs
  tail-drop zero [] = refl
  tail-drop zero (x ∷ xs) = refl
  tail-drop (suc n) [] = refl
  tail-drop (suc n) (x ∷ xs) = tail-drop n xs

  push-tail :
      (size : ℕ) (q : List A) (v : A) → length q ≡ size → push size q v ≡ Queue.tail q ++ (v ∷ [])
  unfolding push
  push-tail size q v e = ground arith

  -- Pushing onto the last `size` items of a history keeps the last `size` of the longer one.
  push-drop :
      (size : ℕ) (xs : List A) (v : A)
      → 0 < size
      → push size (drop (length xs - size) xs) v
        ≡ drop (length (xs ++ (v ∷ [])) - size) (xs ++ (v ∷ []))
  push-drop size xs v h = rw (length-append xs (v ∷ [])) (elim (dec_lt (length xs) size) [
    | yes p ↦
        rw
          (
            (let e : length xs - size ≡ 0 = omega arith in e),
            (let e : length xs + 1 - size ≡ 0 = omega arith in e),
          )
          (push-room size v xs (omega arith))
    | no p ↦
        push-tail size (drop (length xs - size) xs) v
          (length-drop (length xs - size) xs ∙ omega arith)
        ∙ rw
            (
              tail-drop (length xs - size) xs,
              (let e : length xs + 1 - size ≡ suc (length xs - size) = omega arith in e),
            )
            (drop-room p)
  ])
    where
      drop-room :
          ¬ (length xs < size)
          → drop (suc (length xs - size)) xs ++ (v ∷ [])
            ≡ drop (suc (length xs - size)) (xs ++ (v ∷ []))
      drop-room p = sym (drop-append_le (suc (length xs - size)) xs (v ∷ []) (omega arith))

  push_all-drop :
      (size : ℕ) (xs vs : List A)
      → 0 < size
      → push_all size (drop (length xs - size) xs) vs ≡ drop (length (xs ++ vs) - size) (xs ++ vs)
  push_all-drop size xs [] h = rw append-nil
  push_all-drop size xs (v ∷ vs) h =
      rw (push-drop size xs v h)
        (push_all-drop size (xs ++ (v ∷ [])) vs h ∙ rw (append_assoc xs (v ∷ []) vs))

  pub push_all-new :
      (size : ℕ) (vs : List A) → 0 < size → push_all size [] vs ≡ drop (length vs - size) vs
  push_all-new size vs h =
      subst (λ q. push_all size q vs ≡ drop (length vs - size) vs) (drop-nil (0 - size))
        (push_all-drop size [] vs h)

  -- A producer that writes `vs` to a new buffer of positive size, and a consumer that then reads as
  -- often as there are items: it gets the last `size` items of `vs`, in the order written, and the
  -- next call of `Next` waits.
  pub read_n-write_all :
      (size : ℕ) (vs : List A)
      → 0 < size
      → let kept = drop (length vs - size) vs in
        (rb rb' : RingBuffer A) × (write_all vs (new_ring_buffer size) ≡ some rb)
        × (read_n (length kept) rb ≡ some (kept, rb'))
        × (receive rb' ≡ none)
  unfolding new_ring_buffer
  read_n-write_all size vs h =
      let (rb, e, s) =
        write_all-push_all vs (new_ring_buffer size) [] (new_ring_buffer-IsValid size h) in
      let (rb', e', s') = read_n-Stores 0 kept rb (subst (IsValid rb) (push_all-new size vs h) s) in
      (rb, rb', e, e', receive-none rb' s'.tokens)
    where
      kept : List A
      kept = drop (length vs - size) vs
