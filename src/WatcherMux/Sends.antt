-- ===== src/WatcherMux/Sends.antt =====
-- internal/util/watchermux.go: what a dispatch leaves in each watcher.
use udplb.Base.{
  ℕ, Bool, true, false, Option, some, List, [], ◌∷◌, ◌++◌, ltb, nat_beq, nat_beq_iff, if◌then◌else◌,
  get_elem?, set, length, ◌≡◌, refl, sym, ap, ◌∙◌, arith, length-set, elem, Distinct,
  get_elem?_lt_length, get_elem?-set_self, get_elem?-set_ne, Bool-cases, inl, inr,
}
use mathlib.Core.Path.{subst}
use udplb.WatcherMux.{Watcher, is_filtered, dispatch_one, dispatch_to, dispatch_over, put_back}

module _ {ℓ} {T : Type ℓ} where
  -- A watcher that was not cancelled, of a multiplexer that is not closed.
  pub record IsOpen (w : Watcher T) : Type 0 where
    pub not_once : w.once ≡ false
    pub not_done : w.done ≡ false

  -- The message behind those in the channel, if the filter takes it and there is room.
  abbrev pub offered : ℕ → T → Watcher T → Watcher T
  offered capacity v w =
      if is_filtered w.filter v
      then w
      else if ltb (length w.ch) capacity
      then record w { ch = w.ch ++ (v ∷ []) }
      else w

  abbrev pub Opens : List ℕ → List (Watcher T) → Type ℓ
  Opens [] heap = Unit
  Opens (i ∷ is) heap = ((w : Watcher T) × (get_elem? heap i ≡ some w) × IsOpen w) × Opens is heap

  abbrev pub offered_at : Bool → ℕ → T → Option (Watcher T) → Option (Watcher T)
  offered_at true capacity v (some w) = some (offered capacity v w)
  offered_at _ capacity v o = o

  dispatch_one-offered :
      (pick : Bool) (capacity : ℕ) (v : T) (w : Watcher T)
      → IsOpen w
      → dispatch_one pick capacity v w ≡ some (offered capacity v w)
  dispatch_one-offered pick capacity v w h =
      let once = h.not_once in
      let done = h.not_done in
      elim (Bool-cases (is_filtered w.filter v)) [
        | inl e ↦ rw (e, if◌then◌else◌) refl
        | inr e ↦ rw (e, done, once, if◌then◌else◌) refl
      ]

  Opens-set :
      (is : List ℕ) (heap : List (Watcher T)) (i : ℕ) (w : Watcher T)
      → elem i is ≡ false
      → Opens is heap
      → Opens is (set heap i w)
  Opens-set [] heap i w e h = tt
  Opens-set (j ∷ is) heap i w e h =
      let ((x, at, open_x), rest) = h in
      (
        (x, get_elem?-set_ne heap i j w (ground (arith)) ∙ at, open_x),
        Opens-set is heap i w (ground arith) rest,
      )

  dispatch_to-offered :
      (pick : Bool) (capacity : ℕ) (v : T) (j : ℕ) (heap : List (Watcher T)) (w : Watcher T)
      → get_elem? heap j ≡ some w
      → IsOpen w
      → dispatch_to pick capacity v j heap ≡ some (set heap j (offered capacity v w))
  dispatch_to-offered pick capacity v j heap w at h =
      rw (at, dispatch_to) (ap (put_back j heap) (dispatch_one-offered pick capacity v w h))

  offered_at-set_self :
      (capacity : ℕ) (v : T) (is : List ℕ) (heap : List (Watcher T)) (j : ℕ) (w : Watcher T)
      → elem j is ≡ false
      → get_elem? heap j ≡ some w
      → offered_at (elem j is) capacity v (get_elem? (set heap j (offered capacity v w)) j)
        ≡ offered_at true capacity v (get_elem? heap j)
  offered_at-set_self capacity v is heap j w out at =
      rw
        (
          out,
          get_elem?-set_self heap j (offered capacity v w) (get_elem?_lt_length heap j w at),
          at,
        )
        refl

  offered_at-set :
      (capacity : ℕ) (v : T) (is : List ℕ) (heap : List (Watcher T)) (i j : ℕ) (w : Watcher T)
      → elem j is ≡ false
      → get_elem? heap j ≡ some w
      → offered_at (elem i is) capacity v (get_elem? (set heap j (offered capacity v w)) i)
        ≡ offered_at (elem i (j ∷ is)) capacity v (get_elem? heap i)
  offered_at-set capacity v is heap i j w out at = elim (Bool-cases (nat_beq i j)) [
    | inl t ↦
        rw (t, if◌then◌else◌)
          (subst
            (λ k.
              offered_at (elem k is) capacity v (get_elem? (set heap j (offered capacity v w)) k)
              ≡ offered_at true capacity v (get_elem? heap k))
            (sym ((nat_beq_iff i j).0 t)) (offered_at-set_self capacity v is heap j w out at))
    | inr f ↦
        rw (f, if◌then◌else◌, get_elem?-set_ne heap j i (offered capacity v w) (ground arith)) refl
  ]

  -- With each watcher once and open, a dispatch in any order offers the message to each of them once,
  -- whatever the runtime picks, and to no other.
  pub dispatch_over-offered :
      (pick : Bool) (capacity : ℕ) (v : T) (is : List ℕ) (heap : List (Watcher T))
      → Distinct is
      → Opens is heap
      → (heap' : List (Watcher T)) × (dispatch_over pick capacity v is heap ≡ some heap')
        × (length heap' ≡ length heap)
        × ((i : ℕ) → get_elem? heap' i ≡ offered_at (elem i is) capacity v (get_elem? heap i))
  unfolding dispatch_over
  dispatch_over-offered pick capacity v [] heap d o = (heap, refl, refl, λ i. refl)
  dispatch_over-offered pick capacity v (j ∷ is) heap d o =
      let ((w, at, open_w), rest) = o in
      let heap1 = set heap j (offered capacity v w) in
      let (heap', e, n, all) =
        dispatch_over-offered pick capacity v is heap1 d.1
          (Opens-set is heap j (offered capacity v w) d.0 rest) in
      (
        heap',
        rw (dispatch_to-offered pick capacity v j heap w at open_w, dispatch_over) e,
        n ∙ length-set heap j (offered capacity v w),
        λ i. all i ∙ offered_at-set capacity v is heap i j w d.0 at,
      )
