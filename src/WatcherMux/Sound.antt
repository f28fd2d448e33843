-- ===== src/WatcherMux/Sound.antt =====
-- internal/util/watchermux.go: the invariant of a multiplexer that is not closed, and its steps.
use udplb.Base.{
  ℕ, ◌≤◌, Bool, true, false, Option, none, some, List, [], ◌∷◌, ltb, nat_beq, nat_beq_iff,
  if◌then◌else◌, get_elem?, set, length, ◌≡◌, refl, sym, ap, ◌∙◌, arith, length-append, ltb→lt,
  elem, Distinct, get_elem?_lt_length, get_elem?-set, get_elem?-snoc, elem-snoc, Distinct-snoc,
  get_elem?_ge, Bool-cases, inl, inr,
}
use mathlib.Core.Path.{subst}
use udplb.WatcherMux.{
  Watcher, WatcherMux, new_watcher, watch, remove, dispatch, with_heap, is_filtered,
}
use udplb.WatcherMux.Sends.{IsOpen, Opens, offered_at, dispatch_over-offered}

-- An order in which Go may visit the watchers: each once.
pub record Visits (ids watchers : List ℕ) : Type 0 where
  pub distinct : Distinct ids
  pub same : (i : ℕ) → elem i ids ≡ elem i watchers

elem-remove :
    (i id : ℕ) (is : List ℕ) → elem i (remove id is) ≡ (if nat_beq i id then false else elem i is)
elem-remove i id [] = ground arith
elem-remove i id (j ∷ is) = ground (arith, elem-remove i id is)

Distinct-remove : (id : ℕ) (is : List ℕ) → Distinct is → Distinct (remove id is)
Distinct-remove id [] d = tt
Distinct-remove id (j ∷ is) d = ground (arith, elem-remove j id is, Distinct-remove id is d.1)

module _ {ℓ} {T : Type ℓ} where
  -- A watcher of the map is open, one that left it is closed on both sides, and no channel holds more
  -- than its capacity.
  abbrev pub Cell : ℕ → Bool → Option (Watcher T) → Type 0
  Cell capacity true none = ⊥
  Cell capacity true (some w) = IsOpen w × (length w.ch ≤ capacity)
  Cell capacity false none = Unit
  Cell capacity false (some w) = (w.once ≡ true) × (w.done ≡ true) × (length w.ch ≤ capacity)

  pub record IsSound (wm : WatcherMux T) : Type ℓ where
    pub distinct : Distinct wm.watchers
    pub cells : (i : ℕ) → Cell wm.watcher_ch_capacity (elem i wm.watchers) (get_elem? wm.heap i)
    pub not_closed : wm.closed ≡ false

  room :
      (capacity : ℕ) (b : Bool) (w : Watcher T) → Cell capacity b (some w) → length w.ch ≤ capacity
  room capacity true w h = h.1
  room capacity false w h = h.2

  Cell-offered :
      (capacity : ℕ) (b : Bool) (v : T) (o : Option (Watcher T))
      → Cell capacity b o
      → Cell capacity b (offered_at b capacity v o)
  Cell-offered capacity true v none h = h
  Cell-offered capacity true v (some w) h = elim (Bool-cases (is_filtered w.filter v)) [
    | inl e ↦ rw (e, if◌then◌else◌) h
    | inr e ↦
        rw (e, if◌then◌else◌)
          (elim (Bool-cases (ltb (length w.ch) capacity)) [
            | inl r ↦
                rw (r, if◌then◌else◌)
                  (
                    record { not_once = h.0.not_once; not_done = h.0.not_done },
                    omega (arith, length-append w.ch (v ∷ []), ltb→lt (length w.ch) capacity r),
                  )
            | inr r ↦ rw (r, if◌then◌else◌) h
          ])
  ]
  Cell-offered capacity false v none h = h
  Cell-offered capacity false v (some w) h = h

  Cell-shrunk :
      (capacity : ℕ) (b : Bool) (w : Watcher T) (vs : List T)
      → Cell capacity b (some w)
      → length vs ≤ length w.ch
      → Cell capacity b (some (record w { ch = vs }))
  Cell-shrunk capacity true w vs h le =
      (record { not_once = h.0.not_once; not_done = h.0.not_done }, omega arith)
  Cell-shrunk capacity false w vs h le = (h.0, h.1, omega arith)

  unlisted :
      (capacity : ℕ) (b : Bool) (o : Option (Watcher T)) → o ≡ none → Cell capacity b o → b ≡ false
  unlisted capacity false o e h = refl
  unlisted capacity true none e h = absurd h
  unlisted capacity true (some w) e h = cc

  pub listed :
      (capacity : ℕ) (b : Bool) (o : Option (Watcher T))
      → b ≡ true
      → Cell capacity b o
      → (w : Watcher T) × (o ≡ some w) × IsOpen w
  listed capacity true none e h = absurd h
  listed capacity true (some w) e h = (w, refl, h.0)
  listed capacity false o e h = cc

  -- A watcher that is not in the heap is not in the map.
  fresh : (wm : WatcherMux T) → IsSound wm → elem (length wm.heap) wm.watchers ≡ false
  fresh wm h =
      unlisted wm.watcher_ch_capacity (elem (length wm.heap) wm.watchers)
        (get_elem? wm.heap (length wm.heap)) (get_elem?_ge wm.heap (length wm.heap) (omega arith))
        (h.cells (length wm.heap))

  pub watch-IsSound :
      (filter : Option (T → Bool)) (wm : WatcherMux T) → IsSound wm → IsSound (watch filter wm)
  unfolding watch
  watch-IsSound filter wm h = record {
    distinct = Distinct-snoc (length wm.heap) wm.watchers (fresh wm h) h.distinct;
    cells = λ i.
        rw (elem-snoc i (length wm.heap) wm.watchers, get_elem?-snoc wm.heap i (new_watcher filter))
          (elim (Bool-cases (nat_beq i (length wm.heap))) [
            | inl e ↦
                rw (e, if◌then◌else◌) (record { not_once = refl; not_done = refl }, omega arith)
            | inr e ↦ rw (e, if◌then◌else◌) (h.cells i)
          ]);
    not_closed = h.not_closed;
  }

  unfoldable pub cancelled : (id : ℕ) (w : Watcher T) (wm : WatcherMux T) → WatcherMux T
  cancelled id w wm = record wm {
    heap = set wm.heap id (record w { done = true; once = true });
    watchers = remove id wm.watchers;
  }

  pub cancelled-IsSound :
      (id : ℕ) (w : Watcher T) (wm : WatcherMux T)
      → get_elem? wm.heap id ≡ some w
      → IsSound wm
      → IsSound (cancelled id w wm)
  unfolding cancelled
  cancelled-IsSound id w wm at h = record {
    distinct = Distinct-remove id wm.watchers h.distinct;
    cells = λ i.
        rw
          (
            elem-remove i id wm.watchers,
            get_elem?-set wm.heap id i (record w { done = true; once = true })
                (get_elem?_lt_length wm.heap id w at),
          )
          (elim (Bool-cases (nat_beq i id)) [
            | inl e ↦
                rw (e, if◌then◌else◌)
                  (
                    refl,
                    refl,
                    room wm.watcher_ch_capacity (elem id wm.watchers) w
                        (subst (Cell wm.watcher_ch_capacity (elem id wm.watchers)) at (h.cells id)),
                  )
            | inr e ↦ rw (e, if◌then◌else◌) (h.cells i)
          ]);
    not_closed = h.not_closed;
  }

  pub received-IsSound :
      (i : ℕ) (w : Watcher T) (v : T) (vs : List T) (wm : WatcherMux T)
      → get_elem? wm.heap i ≡ some w
      → w.ch ≡ v ∷ vs
      → IsSound wm
      → IsSound (record wm { heap = set wm.heap i (record w { ch = vs }) })
  received-IsSound i w v vs wm at e h = record {
    distinct = h.distinct;
    cells = λ j.
        rw (get_elem?-set wm.heap i j (record w { ch = vs }) (get_elem?_lt_length wm.heap i w at))
          (elim (Bool-cases (nat_beq j i)) [
            | inl t ↦
                rw (t, if◌then◌else◌)
                  (subst
                    (λ k.
                      Cell wm.watcher_ch_capacity (elem k wm.watchers)
                        (some (record w { ch = vs })))
                    (sym ((nat_beq_iff j i).0 t))
                    (Cell-shrunk wm.watcher_ch_capacity (elem i wm.watchers) w vs
                      (subst (Cell wm.watcher_ch_capacity (elem i wm.watchers)) at (h.cells i))
                      (omega (arith, ap length e))))
            | inr f ↦ rw (f, if◌then◌else◌) (h.cells j)
          ]);
    not_closed = h.not_closed;
  }

  Opens-ids :
      (ids : List ℕ) (wm : WatcherMux T)
      → IsSound wm
      → ((i : ℕ) → elem i ids ≡ true → elem i wm.watchers ≡ true)
      → Opens ids wm.heap
  Opens-ids [] wm h sub = tt
  Opens-ids (i ∷ ids) wm h sub = (
    listed wm.watcher_ch_capacity (elem i wm.watchers) (get_elem? wm.heap i) (sub i (ground arith))
        (h.cells i),
    Opens-ids ids wm h (λ j e. sub j (ground arith)),
  )

  -- A dispatch on a sound multiplexer: it returns, and each cell is offered the message or left.
  pub dispatch-offered :
      (pick : Bool) (v : T) (ids : List ℕ) (wm : WatcherMux T)
      → IsSound wm
      → Visits ids wm.watchers
      → (heap : List (Watcher T)) × (dispatch pick v ids wm ≡ some (record wm { heap = heap }))
        × ((i : ℕ)
            → get_elem? heap i
              ≡ offered_at (elem i wm.watchers) wm.watcher_ch_capacity v (get_elem? wm.heap i))
  unfolding dispatch
  dispatch-offered pick v ids wm h visit =
      let (heap, e, _, all) =
        dispatch_over-offered pick wm.watcher_ch_capacity v ids wm.heap visit.distinct
          (Opens-ids ids wm h (λ i t. sym (visit.same i) ∙ t)) in
      (
        heap,
        ap (with_heap wm) e,
        λ i.
            all i
            ∙ ap (λ b. offered_at b wm.watcher_ch_capacity v (get_elem? wm.heap i)) (visit.same i),
      )

  pub offered-IsSound :
      (v : T) (wm : WatcherMux T) (heap : List (Watcher T))
      → IsSound wm
      → ((i : ℕ)
          → get_elem? heap i
            ≡ offered_at (elem i wm.watchers) wm.watcher_ch_capacity v (get_elem? wm.heap i))
      → IsSound (record wm { heap = heap })
  offered-IsSound v wm heap h all = record {
    distinct = h.distinct;
    cells = λ i. rw (all i) (
        Cell-offered wm.watcher_ch_capacity (elem i wm.watchers) v (get_elem? wm.heap i)
          (h.cells i));
    not_closed = h.not_closed;
  }
