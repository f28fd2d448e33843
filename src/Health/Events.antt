-- ===== src/Health/Events.antt =====
-- The entries of the monitor, handled by the controller one after the other.
use mathlib.Core.Path.{subst}
use udplb.Base.{
  ℕ, ◌<◌, ◌^◌, ◌≡◌, refl, sym, ap, ◌∙◌, true, false, inl, inr, Option, none, some, List, [], ◌∷◌,
  map, length, length-map, arith, IsMap, ◌==◌, ==_refl, bytes_comparable, if◌then◌else◌, Bool-cases,
  All,
}
use udplb.Types.{
  Uuid, State, state_beq, available, unavailable, unknown, unschedulable, Backend,
  BackendStatusEntry,
}
use udplb.Controller.{
  Controller, Objects, filter_available, recompute_and_apply, set_status, health_event,
}
use udplb.Controller.Apply.{Recomputed, recompute_and_apply-Recomputed}
use udplb.Controller.Events.{with_status}
use udplb.Health.{health_loop}

-- Each id once.
abbrev pub DistinctIds : List Backend → Type 0
DistinctIds [] = Unit
DistinctIds (b ∷ bs) = All (λ d. (d.id == b.id) ≡ false) bs × DistinctIds bs

-- What an entry makes of a backend, and what entries do.
abbrev pub after_entry : BackendStatusEntry → Backend → Backend
after_entry entry b = if b.id == entry.backend_id then with_status b entry.state else b

abbrev pub after_entries : List BackendStatusEntry → Backend → Backend
after_entries [] b = b
after_entries (entry ∷ entries) b = after_entries entries (after_entry entry b)

state_beq_sound : (s t : State) → state_beq s t ≡ true → s ≡ t
state_beq_sound unknown unknown e = refl
state_beq_sound available available e = refl
state_beq_sound unschedulable unschedulable e = refl
state_beq_sound unavailable unavailable e = refl
state_beq_sound _ _ e = ground arith

id-after_entry : (entry : BackendStatusEntry) (b : Backend) → (after_entry entry b).id ≡ b.id
id-after_entry entry b = elim (Bool-cases (b.id == entry.backend_id)) [
  | inl e ↦ rw (e, if◌then◌else◌) refl
  | inr e ↦ rw (e, if◌then◌else◌) refl
]

others_kept :
    (entry : BackendStatusEntry) (bs : List Backend)
    → All (λ d. (d.id == entry.backend_id) ≡ false) bs
    → map (after_entry entry) bs ≡ bs
others_kept entry [] h = refl
others_kept entry (b ∷ bs) (e, h) = rw (e, if◌then◌else◌, others_kept entry bs h) refl

set_status-map :
    (entry : BackendStatusEntry) (bs : List Backend)
    → DistinctIds bs
    → (set_status entry bs).0 ≡ map (after_entry entry) bs
unfolding set_status
set_status-map entry [] d = refl
set_status-map entry (b ∷ bs) (new, d) = elim (Bool-cases (b.id == entry.backend_id)) [
  | inr e ↦ rw (e, if◌then◌else◌) (ap (λ l. b ∷ l) (set_status-map entry bs d))
  | inl e ↦
      let same = (bytes_comparable.equal_iff b.id entry.backend_id).0 e in
      let kept = others_kept entry bs (subst (λ k. All (λ x. (x.id == k) ≡ false) bs) same new) in
      elim (Bool-cases (state_beq b.status.state entry.state)) [
        | inl t ↦
            rw (e, t, if◌then◌else◌, kept)
              (ap (λ s. with_status b s ∷ bs) (state_beq_sound b.status.state entry.state t))
        | inr t ↦ rw (e, t, if◌then◌else◌, kept) refl
      ]
]

-- A call of `recomputeAndApply` ends, and keeps the backends.
recompute-kept :
    (order : List ℕ → List ℕ) (c : Controller)
    → length c.backends < 2 ^ 32
    → IsMap c.session_map
    → (c1 : Controller) × (o : Option Objects) × (recompute_and_apply order c ≡ some (c1, o))
      × (c1.backends ≡ c.backends)
      × IsMap c1.session_map
recompute-kept order c h m =
    by_cases (filter_available c.backends) (recompute_and_apply-Recomputed order c h m)
  where
    by_cases :
        (bs : List Backend)
        → Recomputed c bs (recompute_and_apply order c)
        → (c1 : Controller) × (o : Option Objects) × (recompute_and_apply order c ≡ some (c1, o))
          × (c1.backends ≡ c.backends)
          × IsMap c1.session_map
    by_cases [] r = (c, none, r, refl, m)
    by_cases (b ∷ bs) (c1, o, r, a) = (c1, some o, r, a.same_backends, a.still_map)

health_event-map :
    (order : List ℕ → List ℕ) (entry : BackendStatusEntry) (c : Controller)
    → DistinctIds c.backends
    → length c.backends < 2 ^ 32
    → IsMap c.session_map
    → (c1 : Controller) × (o : Option Objects) × (health_event order entry c ≡ some (c1, o))
      × (c1.backends ≡ map (after_entry entry) c.backends)
      × IsMap c1.session_map
unfolding health_event
health_event-map order entry c d h m =
    let bs = (set_status entry c.backends).0 in
    let listed = set_status-map entry c.backends d in
    elim (Bool-cases ((set_status entry c.backends).1)) [
      | inl e ↦
          let (c1, o, r, kept, m1) =
            recompute-kept order (record c { backends = bs })
              (omega (arith, h, ap length listed, length-map (after_entry entry) c.backends)) m in
          (c1, o, rw (e, if◌then◌else◌) r, kept ∙ listed, m1)
      | inr e ↦ (record c { backends = bs }, none, rw (e, if◌then◌else◌) refl, listed, m)
    ]

DistinctIds-map :
    (entry : BackendStatusEntry) (bs : List Backend)
    → DistinctIds bs
    → DistinctIds (map (after_entry entry) bs)
DistinctIds-map entry [] d = tt
DistinctIds-map entry (b ∷ bs) (new, d) = (others bs new, DistinctIds-map entry bs d)
  where
    others :
        (cs : List Backend)
        → All (λ x. (x.id == b.id) ≡ false) cs
        → All (λ x. (x.id == (after_entry entry b).id) ≡ false) (map (after_entry entry) cs)
    others [] h = tt
    others (x ∷ cs) (e, h) = (
      ap (λ k. k == (after_entry entry b).id) (id-after_entry entry x)
          ∙ ap (λ k. x.id == k) (id-after_entry entry b)
          ∙ e,
      others cs h,
    )

map-map :
    (entry : BackendStatusEntry) (entries : List BackendStatusEntry) (bs : List Backend)
    → map (after_entries entries) (map (after_entry entry) bs)
      ≡ map (after_entries (entry ∷ entries)) bs
map-map entry entries [] = refl
map-map entry entries (b ∷ bs) =
    ap (λ l. after_entries (entry ∷ entries) b ∷ l) (map-map entry entries bs)

map_id : (bs : List Backend) → bs ≡ map (after_entries []) bs
map_id [] = refl
map_id (b ∷ bs) = ap (λ l. b ∷ l) (map_id bs)

pub health_loop-map :
    (order : List ℕ → List ℕ) (entries : List BackendStatusEntry) (c : Controller)
    → DistinctIds c.backends
    → length c.backends < 2 ^ 32
    → IsMap c.session_map
    → (c1 : Controller) × (health_loop order entries c ≡ some c1)
      × (c1.backends ≡ map (after_entries entries) c.backends)
unfolding health_loop
health_loop-map order [] c d h m = (c, refl, map_id c.backends)
health_loop-map order (entry ∷ entries) c d h m =
    let (c1, o, r, listed, m1) = health_event-map order entry c d h m in
    let (c2, r2, listed2) =
      health_loop-map order entries c1
        (subst DistinctIds (sym listed) (DistinctIds-map entry c.backends d))
        (omega (arith, h, ap length listed, length-map (after_entry entry) c.backends)) m1 in
    (
      c2,
      rw (r, health_loop) r2,
      listed2 ∙ ap (map (after_entries entries)) listed ∙ map-map entry entries c.backends,
    )

pub after_entry-same :
    (i : Uuid) (s : State) (b : Backend)
    → i ≡ b.id
    → after_entry (record { backend_id = i; state = s }) b ≡ with_status b s
after_entry-same i s b e =
    rw (subst (λ k. (b.id == k) ≡ true) (sym e) (==_refl b.id), if◌then◌else◌) refl

pub after_entry-other :
    (i : Uuid) (s : State) (b : Backend)
    → (i == b.id) ≡ false
    → after_entry (record { backend_id = i; state = s }) b ≡ b
after_entry-other i s b e = rw (flipped, if◌then◌else◌) refl
  where
    flipped : (b.id == i) ≡ false
    flipped = ground (arith, bytes_comparable.equal_iff i b.id, bytes_comparable.equal_iff b.id i)
