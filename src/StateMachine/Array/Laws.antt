-- ===== src/StateMachine/Array/Laws.antt =====
-- internal/adapter/statemachine/array.go: what `executePut` and `executeDelete` leave.
use udplb.Base.{
  ℕ, zero, suc, ◌+◌, ◌-◌, Bool, true, false, Option, none, some, List, [], ◌∷◌, ◌++◌, length-append,
  lt→ltb, ltb→ge, ltb, ◌≤◌, length, take, drop, if◌then◌else◌, All, get_elem?, ◌≡◌, refl, ◌⊎◌, inl,
  inr, Bool-cases, arith, ap, ◌∙◌, sym,
}
use udplb.StateMachine.{Error}
use udplb.StateMachine.Array.{execute_put, execute_delete, replace_matches, delete_from, without}

module _ {ℓ} {T : Type ℓ} where
  -- The entry that `executePut` leaves for the entry `o`.
  abbrev pub replaced : (T → T → Bool) → T → Option T → Option T
  replaced filter obj none = none
  replaced filter obj (some o) = if filter obj o then some obj else some o

  replace_matches-get_elem? :
      (filter : T → T → Bool) (obj : T) (state : List T) (i : ℕ)
      → get_elem? (replace_matches filter obj state) i ≡ replaced filter obj (get_elem? state i)
  unfolding replace_matches
  replace_matches-get_elem? filter obj [] i = refl
  replace_matches-get_elem? filter obj (o ∷ os) zero = ground arith
  replace_matches-get_elem? filter obj (o ∷ os) (suc i) =
      ground (arith, replace_matches-get_elem? filter obj os i)

  -- With a filter, `executePut` succeeds and replaces exactly the entries that the filter matches
  -- with the object, each in its place; it never adds an entry.
  execute_put-get_elem? :
      (filter : T → T → Bool) (obj : T) (state : List T)
      → ((execute_put (some filter) obj state).0 ≡ none)
        × ((i : ℕ)
            → get_elem? ((execute_put (some filter) obj state).1) i
              ≡ replaced filter obj (get_elem? state i))
  unfolding execute_put
  execute_put-get_elem? filter obj state = (refl, replace_matches-get_elem? filter obj state)

  -- `ys ++ (o ∷ zs)` with `o` the first match.
  pub record FirstMatch (filter : T → T → Bool) (obj : T) (state out : List T) : Type ℓ where
    pub before : List T
    pub hit : T
    pub after : List T
    pub splits : state ≡ before ++ (hit ∷ after)
    pub misses : All (λ o. filter obj o ≡ false) before
    pub hits : filter obj hit ≡ true
    pub removed : out ≡ before ++ after

  abbrev pub Deleted : (T → T → Bool) → T → List T → Option Error × List T → Type ℓ
  Deleted filter obj state r =
      ((r.0 ≡ none) × FirstMatch filter obj state r.1)
      ⊎ ((r.0 ≡ some Error.not_found) × (r.1 ≡ state) × All (λ o. filter obj o ≡ false) state)

  take-append : (ys zs : List T) → take (length ys) (ys ++ zs) ≡ ys
  take-append [] zs = refl
  take-append (y ∷ ys) zs = ap (λ l. y ∷ l) (take-append ys zs)

  drop-append_cons :
      (ys : List T) (o : T) (zs : List T) → drop (suc (length ys)) (ys ++ (o ∷ zs)) ≡ zs
  drop-append_cons [] o zs = refl
  drop-append_cons (y ∷ ys) o zs = drop-append_cons ys o zs

  drop_ge : (n : ℕ) (xs : List T) → length xs ≤ n → drop n xs ≡ []
  drop_ge zero [] h = refl
  drop_ge zero (x ∷ xs) h = absurd (omega arith)
  drop_ge (suc n) [] h = refl
  drop_ge (suc n) (x ∷ xs) h = drop_ge n xs (omega arith)

  append_nil : (ys : List T) → ys ++ [] ≡ ys
  append_nil [] = refl
  append_nil (y ∷ ys) = ap (λ l. y ∷ l) (append_nil ys)

  -- The two guards of `without` save empty slices only.
  without_lem : (i : ℕ) (state : List T) → without i state ≡ take i state ++ drop (suc i) state
  unfolding without
  without_lem zero [] = refl
  without_lem zero (x ∷ []) = refl
  without_lem zero (x ∷ y ∷ zs) = ground arith
  without_lem (suc i) state =
      let e0 = lt→ltb 0 (suc i) (omega arith) in
      elim (Bool-cases (ltb (suc i) (length state - 1))) [
        | inl e ↦
            let one : suc i + 1 ≡ suc (suc i) = omega arith in
            rw (e, e0, if◌then◌else◌) (ap (λ n. take (suc i) state ++ drop n state) one)
        | inr e ↦
            let ge = ltb→ge (suc i) (length state - 1) e in
            let nil = drop_ge (suc (suc i)) state (omega arith) in
            rw (e, e0, if◌then◌else◌)
              (sym (ap (λ l. take (suc i) state ++ l) nil ∙ append_nil (take (suc i) state)))
      ]

  without-split :
      (ys : List T) (o : T) (zs : List T) → without (length ys) (ys ++ (o ∷ zs)) ≡ ys ++ zs
  without-split ys o zs =
      without_lem (length ys) (ys ++ (o ∷ zs))
      ∙ (λ t. take-append ys (o ∷ zs) t ++ drop-append_cons ys o zs t)

  append_snoc : (ys : List T) (o : T) (zs : List T) → (ys ++ (o ∷ [])) ++ zs ≡ ys ++ (o ∷ zs)
  append_snoc [] o zs = refl
  append_snoc (y ∷ ys) o zs = ap (λ l. y ∷ l) (append_snoc ys o zs)

  length-snoc : (ys : List T) (o : T) → length (ys ++ (o ∷ [])) ≡ length ys + 1
  length-snoc ys o = length-append ys (o ∷ [])

  All-append_nil :
      (filter : T → T → Bool) (obj : T) (ys : List T)
      → All (λ o. filter obj o ≡ false) ys
      → All (λ o. filter obj o ≡ false) (ys ++ [])
  All-append_nil filter obj ys h = rw (append_nil ys) h

  All-snoc :
      (filter : T → T → Bool) (obj : T) (ys : List T) (o : T)
      → All (λ o. filter obj o ≡ false) ys
      → filter obj o ≡ false
      → All (λ o. filter obj o ≡ false) (ys ++ (o ∷ []))
  All-snoc filter obj [] o h e = (e, tt)
  All-snoc filter obj (y ∷ ys) o h e = (h.0, All-snoc filter obj ys o h.1 e)

  delete_from-Deleted :
      (filter : T → T → Bool) (obj : T) (ys os : List T)
      → All (λ o. filter obj o ≡ false) ys
      → Deleted filter obj (ys ++ os) (delete_from filter obj (length ys) os (ys ++ os))
  unfolding delete_from
  delete_from-Deleted filter obj ys [] h = inr (refl, refl, All-append_nil filter obj ys h)
  delete_from-Deleted filter obj ys (o ∷ os) h = elim (Bool-cases (filter obj o)) [
    | inl e ↦
        rw (e, if◌then◌else◌)
          (inl (
            refl,
            record {
              before = ys;
              hit = o;
              after = os;
              splits = refl;
              misses = h;
              hits = e;
              removed = without-split ys o os;
            },
          ))
    | inr e ↦
        rw (e, sym (append_snoc ys o os), sym (length-snoc ys o))
          (delete_from-Deleted filter obj (ys ++ (o ∷ [])) os (All-snoc filter obj ys o h e))
  ]

  -- With a filter, `executeDelete` either removes the first entry that the filter matches, and only
  -- that one, without an error; or no entry matches, and it returns `ErrNotFound` and changes nothing.
  execute_delete-Deleted :
      (filter : T → T → Bool) (obj : T) (state : List T)
      → Deleted filter obj state (execute_delete (some filter) obj state)
  unfolding execute_delete
  execute_delete-Deleted filter obj state = delete_from-Deleted filter obj [] state tt
