-- ===== src/WatcherMux/Reach.antt =====
-- internal/util/watchermux.go: what every multiplexer that is not closed looks like.
use udplb.Base.{
  ℕ, Bool, Option, none, some, List, [], ◌∷◌, if◌then◌else◌, get_elem?, ◌≡◌, refl, sym, ◌∙◌,
  some_same, elem, Bool-cases, inl, inr,
}
use mathlib.Core.Path.{subst}
use udplb.WatcherMux.{
  Watcher, WatcherMux, new_watcher_mux, watch, cancel, cancel_watcher, dispatch, received,
}
use udplb.WatcherMux.Sends.{offered_at}
use udplb.WatcherMux.Sound.{
  Visits, IsSound, cancelled, cancelled-IsSound, received-IsSound, watch-IsSound, offered-IsSound,
  dispatch-offered,
}

-- The steps on a multiplexer until it is closed: `Watch`, a cancel function that returns, a dispatch
-- that returns with no other step between, and a receiver that takes a message.
pub data Step {ℓ} {T : Type ℓ} (wm wm' : WatcherMux T) : Type ℓ where
  watches : (filter : Option (T → Bool)) → wm' ≡ watch filter wm → Step wm wm'
  cancels : (id : ℕ) → cancel id wm ≡ some wm' → Step wm wm'
  dispatches :
      (pick : Bool) (v : T) (ids : List ℕ)
      → Visits ids wm.watchers
      → dispatch pick v ids wm ≡ some wm'
      → Step wm wm'
  receives :
      (i : ℕ) (w : Watcher T) (v : T) (heap : List (Watcher T))
      → get_elem? wm.heap i ≡ some w
      → received i wm.heap w w.ch ≡ some (v, heap)
      → wm' ≡ record wm { heap = heap }
      → Step wm wm'

pub data Reach {ℓ} {T : Type ℓ} (capacity : ℕ) : WatcherMux T → Type ℓ where
  created : Reach capacity (new_watcher_mux capacity)
  stepped : {wm wm' : WatcherMux T} → Reach capacity wm → Step wm wm' → Reach capacity wm'

module _ {ℓ} {T : Type ℓ} where
  cancel_watcher-IsSound :
      (id : ℕ) (o : Option (Watcher T)) (wm wm' : WatcherMux T)
      → get_elem? wm.heap id ≡ o
      → cancel_watcher id o wm ≡ some wm'
      → IsSound wm
      → IsSound wm'
  unfolding cancelled
  cancel_watcher-IsSound id none wm wm' at e h = cc
  cancel_watcher-IsSound id (some w) wm wm' at e h = elim (Bool-cases w.done) [
    | inl d ↦ absurd (not_some wm' (rw (d, if◌then◌else◌) at e))
    | inr d ↦
        subst IsSound (some_same (rw (d, if◌then◌else◌) at e)) (cancelled-IsSound id w wm at h)
  ]
    where
      not_some : (m : WatcherMux T) → none ≡ some m → ⊥
      not_some m q = cc

  received_by-IsSound :
      (i : ℕ) (w : Watcher T) (ch : List T) (v : T) (heap : List (Watcher T)) (wm : WatcherMux T)
      → get_elem? wm.heap i ≡ some w
      → w.ch ≡ ch
      → received i wm.heap w ch ≡ some (v, heap)
      → IsSound wm
      → IsSound (record wm { heap = heap })
  received_by-IsSound i w [] v heap wm at e q h = cc
  received_by-IsSound i w (x ∷ vs) v heap wm at e q h =
      subst (λ r. IsSound (record wm { heap = r.1 })) (some_same q)
        (received-IsSound i w x vs wm at e h)

  Step-IsSound : {wm wm' : WatcherMux T} → Step wm wm' → IsSound wm → IsSound wm'
  unfolding cancel
  Step-IsSound {wm} {wm'} (watches filter e) h = subst IsSound (sym e) (watch-IsSound filter wm h)
  Step-IsSound {wm} {wm'} (cancels id e) h =
      cancel_watcher-IsSound id (get_elem? wm.heap id) wm wm' refl e h
  Step-IsSound {wm} {wm'} (dispatches pick v ids visit e) h =
      let (heap, q, all) = dispatch-offered pick v ids wm h visit in
      subst IsSound (some_same (sym q ∙ e)) (offered-IsSound v wm heap h all)
  Step-IsSound {wm} {wm'} (receives i w v heap at e q) h =
      subst IsSound (sym q) (received_by-IsSound i w w.ch v heap wm at refl e h)

  pub Reach-IsSound : (capacity : ℕ) (wm : WatcherMux T) → Reach capacity wm → IsSound wm
  Reach-IsSound capacity _ created = record { distinct = tt; cells = λ i. tt; not_closed = refl }
  Reach-IsSound capacity _ (stepped {wm} r s) = Step-IsSound s (Reach-IsSound capacity wm r)

  -- On every multiplexer that a new one leads to before it is closed, by calls of `Watch`, cancel
  -- functions and dispatches that return and by receivers, a dispatch that no other step interrupts
  -- does not panic, in whatever order it visits the watchers: each watcher that is not cancelled finds
  -- the message at the end of its channel if its filter takes it and there is room, and every other
  -- one is left as it is.
  pub dispatch-Reach :
      (capacity : ℕ) (pick : Bool) (v : T) (ids : List ℕ) (wm : WatcherMux T)
      → Reach capacity wm
      → Visits ids wm.watchers
      → (heap : List (Watcher T)) × (dispatch pick v ids wm ≡ some (record wm { heap = heap }))
        × ((i : ℕ)
            → get_elem? heap i
              ≡ offered_at (elem i wm.watchers) wm.watcher_ch_capacity v (get_elem? wm.heap i))
  dispatch-Reach capacity pick v ids wm r visit =
      dispatch-offered pick v ids wm (Reach-IsSound capacity wm r) visit
