-- ===== src/Controller/Apply.antt =====
-- What `recomputeAndApply` hands to `SetObjects`.
use udplb.Base.{
  ℕ, ◌<◌, ◌≤◌, ◌^◌, ◌≡◌, refl, sym, ◌∙◌, ap, Option, none, some, List, [], ◌∷◌, arith, inl, inr,
  length, get_elem?, bytes_comparable, lookup, IsMap, Option-cases,
}
use udplb.Types.{Uuid, Backend}
use udplb.Rlt.Reverse.Bounds.{IsTable, reverse_coordinates_lookup_table-IsTable}
use udplb.Controller.{
  Controller, Objects, filter_available, index_by_id, new_index, remap, apply_available,
  recompute_and_apply,
}
use udplb.Controller.Remap.{
  At, remapped_to, remap-lookup, remap-IsMap, new_index_sound, new_index_complete,
}

length-filter_available : (bs : List Backend) → length (filter_available bs) ≤ length bs
unfolding filter_available
length-filter_available [] = omega arith
length-filter_available (b ∷ bs) = ground (arith, length-filter_available bs)

-- The objects set from the state `c`, and the state after.
pub record Applied (c c' : Controller) (o : Objects) : Type 0 where
  pub available : o.backend_list ≡ filter_available c.backends
  pub table : IsTable (length o.backend_list) c.lookup_table_size o.lookup_table
  pub sessions :
      (s : Uuid) (k : ℕ)
      → lookup s o.session_map ≡ some k
      → (i : ℕ) × (b : Backend) × (lookup s c.session_map ≡ some i)
        × (get_elem? c.backends i ≡ some b)
        × At o.backend_list k b.id
  pub kept :
      (s : Uuid) (i p : ℕ) (b : Backend)
      → lookup s c.session_map ≡ some i
      → get_elem? c.backends i ≡ some b
      → At o.backend_list p b.id
      → (k : ℕ) × (lookup s o.session_map ≡ some k)
  pub remembered : c'.session_map ≡ o.session_map
  pub same_backends : c'.backends ≡ c.backends
  pub same_size : c'.lookup_table_size ≡ c.lookup_table_size
  pub still_map : IsMap c'.session_map

abbrev remapped : Controller → List Backend → ℕ → Option ℕ
remapped c bs = new_index c.backends (index_by_id 0 bs [])

remapped-sessions :
    (c : Controller) (bs : List Backend) (s : Uuid) (k : ℕ)
    → IsMap c.session_map
    → lookup s (remap (remapped c bs) c.session_map []) ≡ some k
    → (i : ℕ) × (b : Backend) × (lookup s c.session_map ≡ some i)
      × (get_elem? c.backends i ≡ some b)
      × At bs k b.id
remapped-sessions c bs s k m e = elim (Option-cases (lookup s c.session_map)) [
  | inl gone ↦ absurd (ground (arith, remap-lookup (remapped c bs) s c.session_map [] m))
  | inr (i, found) ↦
      let new : remapped c bs i ≡ some k =
        moved i (rw found at (sym (remap-lookup (remapped c bs) s c.session_map [] m) ∙ e)) in
      let (b, at_old, at_new) = new_index_sound c.backends bs i k new in
      (i, b, found, at_old, at_new)
]
  where
    moved : (i : ℕ) → remapped_to (remapped c bs) (some i) none ≡ some k → remapped c bs i ≡ some k
    moved i q = elim (Option-cases (remapped c bs i)) [
      | inl e ↦ absurd (ground arith)
      | inr (k', e) ↦ ground arith
    ]

remapped-kept :
    (c : Controller) (bs : List Backend) (s : Uuid) (i p : ℕ) (b : Backend)
    → IsMap c.session_map
    → lookup s c.session_map ≡ some i
    → get_elem? c.backends i ≡ some b
    → At bs p b.id
    → (k : ℕ) × (lookup s (remap (remapped c bs) c.session_map []) ≡ some k)
remapped-kept c bs s i p b m e at_old at_new =
    let (k, q) = new_index_complete c.backends bs i p b at_old at_new in
    (k, remap-lookup (remapped c bs) s c.session_map [] m ∙ rw (e, remapped_to, q))

apply_available-Applied :
    (order : List ℕ → List ℕ) (c : Controller) (b : Backend) (bs : List Backend)
    → filter_available c.backends ≡ b ∷ bs
    → length c.backends < 2 ^ 32
    → IsMap c.session_map
    → (c' : Controller) × (o : Objects) × (apply_available order c (b ∷ bs) ≡ some (c', some o))
      × Applied c c' o
unfolding apply_available
apply_available-Applied order c b bs e h m =
    let (table, made, t) =
      reverse_coordinates_lookup_table-IsTable order (b ∷ bs) c.lookup_table_size (omega arith)
        (omega (arith, length-filter_available c.backends, ap length e)) in
    let new = remap (remapped c (b ∷ bs)) c.session_map [] in
    (
      record c { session_map = new },
      record { backend_list = b ∷ bs; lookup_table = table; session_map = new },
      rw (made, apply_available),
      record {
        available = sym e;
        table = t;
        sessions = λ s k q. remapped-sessions c (b ∷ bs) s k m q;
        kept = λ s i p d q at_old at_new. remapped-kept c (b ∷ bs) s i p d m q at_old at_new;
        remembered = refl;
        same_backends = refl;
        same_size = refl;
        still_map = remap-IsMap (remapped c (b ∷ bs)) c.session_map [] tt;
      },
    )

-- With no available backend nothing changes and nothing is set; else the objects of `Applied` are set.
abbrev pub Recomputed : Controller → List Backend → Option (Controller × Option Objects) → Type 0
Recomputed c [] r = r ≡ some (c, none)
Recomputed c (b ∷ bs) r =
    (c' : Controller) × (o : Objects) × (r ≡ some (c', some o)) × Applied c c' o

Recomputed-cases :
    (order : List ℕ → List ℕ) (c : Controller) (available : List Backend)
    → filter_available c.backends ≡ available
    → length c.backends < 2 ^ 32
    → IsMap c.session_map
    → Recomputed c available (recompute_and_apply order c)
unfolding recompute_and_apply
Recomputed-cases order c [] e h m = rw (e, recompute_and_apply)
Recomputed-cases order c (b ∷ bs) e h m =
    let (c', o, q, a) = apply_available-Applied order c b bs e h m in
    (c', o, rw (e, recompute_and_apply) q, a)

pub recompute_and_apply-Recomputed :
    (order : List ℕ → List ℕ) (c : Controller)
    → length c.backends < 2 ^ 32
    → IsMap c.session_map
    → Recomputed c (filter_available c.backends) (recompute_and_apply order c)
recompute_and_apply-Recomputed order c h m =
    Recomputed-cases order c (filter_available c.backends) refl h m
