-- ===== src/Controller/Events.antt =====
-- The events of the two loops of the controller.
use udplb.Base.{
  some_same, ℕ, zero, suc, ◌+◌, ◌<◌, ◌^◌, ◌≡◌, ◌≢◌, refl, sym, ◌∙◌, ap, inl, inr, Bool, true, false,
  Option, none, some, List, [], ◌∷◌, arith, length, get_elem?, set, ◌==◌, bytes_comparable, lookup,
  insert, lookup-insert, IsMap, insert-IsMap, Bool-cases, if◌then◌else◌, ==_refl,
}
use mathlib.Core.Path.{subst}
use udplb.Types.{Uuid, State, state_beq, Backend, BackendStatusEntry, Assignment}
use udplb.Controller.{
  Controller, Objects, filter_available, recompute_and_apply, set_status, health_event,
  find_backend, assignment_event,
}
use udplb.Controller.Remap.{At}
use udplb.Controller.Apply.{Applied}
use udplb.Controller.Drift.{Applied-of}

abbrev pub with_status : Backend → State → Backend
with_status b s = record b { status = record { state = s } }

-- The search of a backend by id finds one that has it.
find_backend_sound :
    (id : Uuid) (i k : ℕ) (bs : List Backend)
    → find_backend id i bs ≡ some k
    → (p : ℕ) × (k ≡ i + p) × At bs p id
unfolding find_backend
find_backend_sound id i k [] e = cc
find_backend_sound id i k (b ∷ bs) e = elim (Bool-cases (b.id == id)) [
  | inl t ↦ (0, ground arith, (b, refl, (bytes_comparable.equal_iff b.id id).0 t))
  | inr f ↦
      let (p, q, at) = find_backend_sound id (i + 1) k bs (rw f at e) in (suc p, omega arith, at)
]

set_status-none :
    (entry : BackendStatusEntry) (i : ℕ) (bs : List Backend)
    → find_backend entry.backend_id i bs ≡ none
    → set_status entry bs ≡ (bs, false)
unfolding find_backend set_status
set_status-none entry i [] e = refl
set_status-none entry i (b ∷ bs) e = ground (arith, set_status-none entry (i + 1) bs)

find_backend-gt : (id : Uuid) (i : ℕ) (bs : List Backend) → find_backend id (i + 1) bs ≢ some i
find_backend-gt id i bs e =
    let (p, q, at) = find_backend_sound id (i + 1) i bs e in absurd (omega arith)

-- What `healthLoop` makes of the list when the backend is found at place `p`.
abbrev updated : BackendStatusEntry → List Backend → ℕ → Backend → List Backend × Bool
updated entry bs p b =
    if state_beq b.status.state entry.state
    then (bs, false)
    else (set bs p (with_status b entry.state), true)

set_status-some :
    (entry : BackendStatusEntry) (i p : ℕ) (bs : List Backend) (b : Backend)
    → find_backend entry.backend_id i bs ≡ some (i + p)
    → get_elem? bs p ≡ some b
    → set_status entry bs ≡ updated entry bs p b
unfolding find_backend set_status
set_status-some entry i p [] b e f = cc
set_status-some entry i zero (x ∷ bs) b e f = elim (Bool-cases (x.id == entry.backend_id)) [
  | inl t ↦ rw (t, some_same f)
  | inr ne ↦ absurd (find_backend-gt entry.backend_id i bs (rw ne at e ∙ ap some (omega arith)))
]
set_status-some entry i (suc p) (x ∷ bs) b e f = elim (Bool-cases (x.id == entry.backend_id)) [
  | inl t ↦ absurd (wrong (rw t at e))
  | inr ne ↦
      rw (ne, set_status-some entry (i + 1) p bs b (rw ne at e ∙ ap some (omega arith)) f)
        (ground arith)
]
  where
    wrong : some i ≡ some (i + suc p) → ⊥
    wrong q = ground arith

-- One health event on the state `c`, by the place at which the backend is found.
abbrev pub HealthStep :
    (List ℕ → List ℕ)
    → BackendStatusEntry
    → Controller
    → Option ℕ
    → Option (Controller × Option Objects)
    → Type 0
HealthStep order entry c none r = r ≡ some (c, none)
HealthStep order entry c (some p) r =
    (b : Backend) × (get_elem? c.backends p ≡ some b)
    × (b.id ≡ entry.backend_id)
    × (r ≡ (
        if state_beq b.status.state entry.state
        then some (c, none)
        else recompute_and_apply order
            (record c { backends = set c.backends p (with_status b entry.state) })))

health_cases :
    (order : List ℕ → List ℕ) (entry : BackendStatusEntry) (c : Controller) (found : Option ℕ)
    → find_backend entry.backend_id 0 c.backends ≡ found
    → HealthStep order entry c found (health_event order entry c)
unfolding health_event
health_cases order entry c none e = rw (set_status-none entry 0 c.backends e, health_event)
health_cases order entry c (some p) e =
    let (q, z, (b, at, i)) = find_backend_sound entry.backend_id 0 p c.backends e in
    let same : q ≡ p = omega arith in
    let at' : get_elem? c.backends p ≡ some b = rw same at at in
    (
      b,
      at',
      i,
      rw (set_status-some entry 0 p c.backends b (e ∙ ap some (omega arith)) at', health_event)
          (ground arith),
    )

-- A health event for an id that no backend has, or for a state that its backend already has, changes
-- nothing and sets nothing. Else the first backend of that id gets the new state, the others stay, and
-- the objects are recomputed from that list with the old session map.
pub health_event-HealthStep :
    (order : List ℕ → List ℕ) (entry : BackendStatusEntry) (c : Controller)
    → HealthStep order entry c
        (find_backend entry.backend_id 0 c.backends)
        (health_event order entry c)
health_event-HealthStep order entry c =
    health_cases order entry c (find_backend entry.backend_id 0 c.backends) refl

-- A session that the BPF program assigned, followed by the next call of `recomputeAndApply`: if its
-- backend is available the session gets an entry, and whatever entry it gets stands for that backend.
pub assignment_event-routes :
    (order : List ℕ → List ℕ) (a : Assignment) (c c' : Controller) (o : Objects) (i p : ℕ)
    → length c.backends < 2 ^ 32
    → IsMap c.session_map
    → find_backend a.backend_id 0 c.backends ≡ some i
    → recompute_and_apply order (assignment_event a c) ≡ some (c', some o)
    → At (filter_available c.backends) p a.backend_id
    → (k : ℕ) × (lookup a.session_id o.session_map ≡ some k) × At o.backend_list k a.backend_id
unfolding assignment_event
assignment_event-routes order a c c' o i p h m e r (x, at_x, id_x) =
    let (q, z, (b, at_q, id_b)) = find_backend_sound a.backend_id 0 i c.backends e in
    let at_b : get_elem? c.backends i ≡ some b = rw (let q' : i ≡ q = omega arith in q') at_q in
    let (k, k_found) =
      a1.kept a.session_id i p b written at_b (x, rw a1.available at_x, id_x ∙ sym id_b) in
    let (j, d, d_found, at_d, at_k) = a1.sessions a.session_id k k_found in
    let same_j : j ≡ i = some_same (sym d_found ∙ written) in
    let same_d : d ≡ b = some_same (sym at_d ∙ rw same_j at_b) in
    (k, k_found, subst (At o.backend_list k) (ap (λ (y : Backend). y.id) same_d ∙ id_b) at_k)
  where
    c1 : Controller
    c1 = record c { session_map = insert a.session_id i c.session_map }

    a1 : Applied c1 c' o
    a1 =
        Applied-of order c1 c' o h (insert-IsMap a.session_id i c.session_map m)
          (rw (e, assignment_event) at r)

    written : lookup a.session_id c1.session_map ≡ some i
    written = lookup-insert a.session_id a.session_id i c.session_map ∙ rw (==_refl a.session_id)
