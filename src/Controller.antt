-- ===== src/Controller.antt =====
-- internal/controller/controller.go: the controller keeps the configured backends, their health and
-- the session map, and hands the BPF data structure manager a consistent set of objects.
-- `recomputeAndApply`, `assignmentLoop` and `healthLoop` work under `c.mu`, so that each event is one
-- step on the state. `c.backends` is a slice of pointers: a health event changes a backend in place,
-- and `filterAvailable` shares the pointers, which are only read afterwards. What is handed to
-- `SetObjects` is the step's result; its error is passed on and changes nothing in the controller.
pub mod Sizes
pub mod Remap
pub mod Apply
pub mod Drift
pub mod Events
mod Tests
use udplb.Base.{
  ℕ, zero, suc, ◌+◌, ◌*◌, ◌%◌, ◌^◌, Bool, true, false, not, ◌&&◌, Option, none, some, List, [], ◌∷◌,
  ltb, leb, if◌then◌else◌, get_elem?, length, ◌==◌, bytes_comparable, Map, lookup, insert,
}
use udplb.Types.{Uuid, State, state_beq, is_available, Backend, BackendStatusEntry, Assignment}
use udplb.Rlt.Reverse.{reverse_coordinates_lookup_table}

pub record Controller : Type 0 where
  pub backends : List Backend
  pub lookup_table_size : ℕ
  pub session_map : Map Uuid ℕ

-- The arguments of a call of `SetObjects`.
pub record Objects : Type 0 where
  pub backend_list : List Backend
  pub lookup_table : List ℕ
  pub session_map : Map Uuid ℕ

abbrev pub lookup_table_primes : List ℕ
lookup_table_primes = 7 ∷ 13 ∷ 23 ∷ 47 ∷ 97 ∷ 197 ∷ 397 ∷ 797 ∷ []

unfoldable pub first_at_least : ℕ → List ℕ → ℕ
first_at_least target [] = 797
first_at_least target (p ∷ ps) = if leb target p then p else first_at_least target ps

-- `uint32(2 * n)`; the fallback is the last prime of the list.
unfoldable pub compute_lookup_table_size : ℕ → ℕ
unfolding first_at_least
compute_lookup_table_size n = first_at_least (2 * n % 2 ^ 32) lookup_table_primes

abbrev pub both_available : Backend → Bool
both_available b = is_available b.spec.state && is_available b.status.state

unfoldable pub filter_available : List Backend → List Backend
filter_available [] = []
filter_available (b ∷ bs) =
    if both_available b then b ∷ filter_available bs else filter_available bs

-- `newIndexByID[b.Id] = uint32(i)` over the available backends, from index `i` on.
unfoldable pub index_by_id : ℕ → List Backend → Map Uuid ℕ → Map Uuid ℕ
index_by_id i [] m = m
index_by_id i (b ∷ bs) m = index_by_id (i + 1) bs (insert b.id i m)

-- The new index of a session whose old one is `old_idx`.
unfoldable pub new_index : List Backend → Map Uuid ℕ → ℕ → Option ℕ
new_index backends index old_idx =
    if leb (length backends) old_idx
    then none
    else elim (get_elem? backends old_idx) [ none ↦ none | some b ↦ lookup b.id index ]

-- The loop that fills `remapped`.
unfoldable pub remap : (ℕ → Option ℕ) → Map Uuid ℕ → Map Uuid ℕ → Map Uuid ℕ
remap f [] remapped = remapped
remap f ((session, old_idx) ∷ m) remapped =
    remap f m (elim (f old_idx) [ none ↦ remapped | some idx ↦ insert session idx remapped ])

-- The loop of `healthLoop` over the backends: the first one of that id, and whether it changed.
unfoldable pub set_status : BackendStatusEntry → List Backend → List Backend × Bool
set_status entry [] = ([], false)
set_status entry (b ∷ bs) =
    let (bs', changed) = set_status entry bs in
    if b.id == entry.backend_id
    then if state_beq b.status.state entry.state
      then (b ∷ bs, false)
      else (record b { status = record { state = entry.state } } ∷ bs, true)
    else (b ∷ bs', changed)

-- `order` is the order in which Go visits the map of unset cells.
module _ (order : List ℕ → List ℕ) where
  -- The part of `recomputeAndApply` behind the check that a backend is available. `none`: the loops
  -- of the table do not end.
  unfoldable pub apply_available : Controller → List Backend → Option (Controller × Option Objects)
  unfolding remap index_by_id new_index
  apply_available c available =
      elim (reverse_coordinates_lookup_table order available c.lookup_table_size) [
        | none ↦ none
        | some table ↦
            let remapped =
              remap (new_index c.backends (index_by_id 0 available [])) c.session_map [] in
            some (
              record c { session_map = remapped },
              some (record {
                backend_list = available;
                lookup_table = table;
                session_map = remapped;
              }),
            )
      ]

  -- `recomputeAndApply`: the new state, and the objects set, if any.
  unfoldable pub recompute_and_apply : Controller → Option (Controller × Option Objects)
  unfolding apply_available filter_available
  recompute_and_apply c = elim (filter_available c.backends) [
    | [] ↦ some (c, none)
    | b ∷ bs ↦ apply_available c (b ∷ bs)
  ]

  -- One event of `healthLoop`.
  unfoldable pub health_event :
      BackendStatusEntry → Controller → Option (Controller × Option Objects)
  unfolding set_status
  health_event entry c =
      let (bs, changed) = set_status entry c.backends in
      let c' = record c { backends = bs } in
      if changed then recompute_and_apply c' else some (c', none)

-- The index of the first backend of that id, from `i` on.
unfoldable pub find_backend : Uuid → ℕ → List Backend → Option ℕ
find_backend id i [] = none
find_backend id i (b ∷ bs) = if b.id == id then some i else find_backend id (i + 1) bs

-- One event of `assignmentLoop`.
unfoldable pub assignment_event : Assignment → Controller → Controller
unfolding find_backend
assignment_event a c = elim (find_backend a.backend_id 0 c.backends) [
  | none ↦ c
  | some i ↦ record c { session_map = insert a.session_id i c.session_map }
]
