-- ===== src/Controller/Remap.antt =====
-- The indices of the backends, before and after.
use udplb.Base.{
  ℕ, zero, suc, ◌+◌, ◌<◌, ◌≡◌, refl, ◌∙◌, ◌⊎◌, inl, inr, true, false, Option, none, some, List, [],
  ◌∷◌, arith, leb, if◌then◌else◌, length, get_elem?, ◌==◌, bytes_comparable, Map, lookup, insert,
  lookup-insert, IsMap, insert-IsMap, Option-cases, Bool-cases,
}
use udplb.Types.{Uuid, Backend}
use udplb.Controller.{index_by_id, new_index, remap}

-- The backend at place `p` of the list.
abbrev pub At : List Backend → ℕ → Uuid → Type 0
At bs p id = (b : Backend) × (get_elem? bs p ≡ some b) × (b.id ≡ id)

pub At-lt : (bs : List Backend) (p : ℕ) (id : Uuid) → At bs p id → p < length bs
At-lt [] p id h = cc h.1
At-lt (b ∷ bs) zero id h = omega arith
At-lt (b ∷ bs) (suc p) id h = omega (arith, At-lt bs p id h)

-- What the index map says is true of the list it was made from.
index_by_id_sound :
    (id : Uuid) (k i : ℕ) (bs : List Backend) (m : Map Uuid ℕ)
    → lookup id (index_by_id i bs m) ≡ some k
    → (lookup id m ≡ some k) ⊎ ((p : ℕ) × (k ≡ i + p) × At bs p id)
unfolding index_by_id
index_by_id_sound id k i [] m e = inl e
index_by_id_sound id k i (b ∷ bs) m e =
    elim (index_by_id_sound id k (i + 1) bs (insert b.id i m) e) [
      | inl old ↦ newest (rw (lookup-insert b.id id i m) at old)
      | inr (p, q, at) ↦ inr (suc p, omega arith, at)
    ]
  where
    newest :
        (if b.id == id then some i else lookup id m) ≡ some k
        → (lookup id m ≡ some k) ⊎ ((p : ℕ) × (k ≡ i + p) × At (b ∷ bs) p id)
    newest e = elim (Bool-cases (b.id == id)) [
      | inl t ↦
          let e' : some i ≡ some k = rw t at e in
          inr (0, ground arith, (b, refl, (bytes_comparable.equal_iff b.id id).0 t))
      | inr f ↦ inl (rw f at e)
    ]

-- A key stays in the index map.
index_by_id-keeps :
    (id : Uuid) (k i : ℕ) (bs : List Backend) (m : Map Uuid ℕ)
    → lookup id m ≡ some k
    → (k' : ℕ) × (lookup id (index_by_id i bs m) ≡ some k')
unfolding index_by_id
index_by_id-keeps id k i [] m e = (k, e)
index_by_id-keeps id k i (b ∷ bs) m e = elim (Bool-cases (b.id == id)) [
  | inl t ↦ index_by_id-keeps id i (i + 1) bs (insert b.id i m) (lookup-insert b.id id i m ∙ rw t)
  | inr f ↦ index_by_id-keeps id k (i + 1) bs (insert b.id i m) (lookup-insert b.id id i m ∙ rw f e)
]

-- Every backend of the list is in the index map.
index_by_id_complete :
    (id : Uuid) (p i : ℕ) (bs : List Backend) (m : Map Uuid ℕ)
    → At bs p id
    → (k : ℕ) × (lookup id (index_by_id i bs m) ≡ some k)
unfolding index_by_id
index_by_id_complete id p i [] m (b, e, s) = cc
index_by_id_complete id zero i (b ∷ bs) m (c, e, s) =
    index_by_id-keeps id i (i + 1) bs (insert b.id i m) (
      lookup-insert b.id id i m
      ∙ rw (let t : (b.id == id) ≡ true = (bytes_comparable.equal_iff b.id id).1 (cc) in t))
index_by_id_complete id (suc p) i (b ∷ bs) m h =
    index_by_id_complete id p (i + 1) bs (insert b.id i m) h

-- An old index has a new one exactly when its backend, by id, is among the available ones; the new
-- index is that backend's place there.
pub new_index_sound :
    (old new : List Backend) (i k : ℕ)
    → new_index old (index_by_id 0 new []) i ≡ some k
    → (b : Backend) × (get_elem? old i ≡ some b) × At new k b.id
unfolding new_index
new_index_sound old new i k e = elim (Option-cases (get_elem? old i)) [
  | inl no_backend ↦ absurd (ground (arith, no_backend))
  | inr (b, found) ↦ elim (index_by_id_sound b.id k 0 new [] (looked b found (elim_lt found))) [
    | inl old' ↦ cc
    | inr (p, q, at) ↦ (b, found, rw (let q' : k ≡ p = omega arith in q') at)
  ]
]
  where
    elim_lt : {b : Backend} → get_elem? old i ≡ some b → leb (length old) i ≡ false
    elim_lt {b} found = let h = At-lt old i b.id (b, found, refl) in ground arith

    looked :
        (b : Backend)
        → get_elem? old i ≡ some b
        → leb (length old) i ≡ false
        → lookup b.id (index_by_id 0 new []) ≡ some k
    looked b found in_range = ground arith

pub new_index_complete :
    (old new : List Backend) (i p : ℕ) (b : Backend)
    → get_elem? old i ≡ some b
    → At new p b.id
    → (k : ℕ) × (new_index old (index_by_id 0 new []) i ≡ some k)
unfolding new_index
new_index_complete old new i p b e at =
    let (k, q) = index_by_id_complete b.id p 0 new [] at in
    let h = At-lt old i b.id (b, e, refl) in (k, ground arith)

-- What the loop over the session map makes of a looked up index and an entry of `remapped`.
abbrev pub remapped_to : (ℕ → Option ℕ) → Option ℕ → Option ℕ → Option ℕ
remapped_to f none entry = entry
remapped_to f (some i) entry = elim (f i) [ none ↦ entry | some k ↦ some k ]

pub remap-lookup :
    (f : ℕ → Option ℕ) (s : Uuid) (m acc : Map Uuid ℕ)
    → IsMap m
    → lookup s (remap f m acc) ≡ remapped_to f (lookup s m) (lookup s acc)
unfolding remap
remap-lookup f s [] acc h = refl
remap-lookup f s ((t, i) ∷ m) acc h = elim (Option-cases (f i)) [
  | inl e ↦ ground (arith, e, remap-lookup f s m acc h.1, bytes_comparable.equal_iff t s, h.0)
  | inr (k, e) ↦ ground (
    arith,
    e,
    remap-lookup f s m (insert t k acc) h.1,
    lookup-insert t s k acc,
    bytes_comparable.equal_iff t s,
    h.0,
  )
]

pub remap-IsMap : (f : ℕ → Option ℕ) (m acc : Map Uuid ℕ) → IsMap acc → IsMap (remap f m acc)
unfolding remap
remap-IsMap f [] acc h = h
remap-IsMap f ((t, i) ∷ m) acc h = elim (Option-cases (f i)) [
  | inl e ↦ rw e (remap-IsMap f m acc h)
  | inr (k, e) ↦ rw e (remap-IsMap f m (insert t k acc) (insert-IsMap t k acc h))
]
