-- ===== src/WatcherMux/Misuse.antt =====
-- internal/util/watchermux.go: dispatches that come too late.
use udplb.Base.{
  ℕ, Bool, true, false, none, some, List, [], ◌∷◌, ◌||◌, nat_beq, nat_beq_iff, if◌then◌else◌,
  get_elem?, set, ◌≡◌, refl, sym, ap, ◌∙◌, arith, elem, get_elem?_lt_length, get_elem?-set,
  some_same, Bool-cases, inl, inr, Option-cases,
}
use udplb.WatcherMux.{
  Watcher, WatcherMux, remove, cancel, cancel_watcher, dispatch, dispatch_one, dispatch_to,
  put_back, dispatch_over, with_heap, is_filtered, close_over, close_mux,
}
use udplb.WatcherMux.Sound.{IsSound, listed}
use udplb.WatcherMux.Reach.{Reach, Reach-IsSound}

or_true : (b : Bool) → (b || true) ≡ true
or_true true = refl
or_true false = refl

module _ {ℓ} {T : Type ℓ} where
  cell_at :
      (id i : ℕ) (heap : List (Watcher T)) (w : Watcher T)
      → nat_beq id i ≡ true
      → get_elem? heap id ≡ some w
      → get_elem? heap i ≡ some w
  cell_at id i heap w t at = ap (get_elem? heap) (sym ((nat_beq_iff id i).0 t)) ∙ at

  set_hit :
      (id i : ℕ) (heap : List (Watcher T)) (w x : Watcher T)
      → nat_beq id i ≡ true
      → get_elem? heap id ≡ some w
      → get_elem? (set heap i x) id ≡ some x
  set_hit id i heap w x t at =
      get_elem?-set heap i id x (get_elem?_lt_length heap i w (cell_at id i heap w t at))
      ∙ rw (t, if◌then◌else◌) refl

  set_miss :
      (id i : ℕ) (heap : List (Watcher T)) (w x : Watcher T)
      → nat_beq id i ≡ false
      → get_elem? heap i ≡ some w
      → get_elem? (set heap i x) id ≡ get_elem? heap id
  set_miss id i heap w x f at =
      get_elem?-set heap i id x (get_elem?_lt_length heap i w at) ∙ rw (f, if◌then◌else◌) refl

  -- The cell `id` after the channels of a list are closed.
  close_over-cell :
      (id : ℕ) (is : List ℕ) (heap : List (Watcher T)) (w : Watcher T)
      → get_elem? heap id ≡ some w
      → get_elem? (close_over is heap) id ≡ some (record w { once = elem id is || w.once })
  unfolding close_over
  close_over-cell id [] heap w at = at
  close_over-cell id (i ∷ is) heap w at = elim (Bool-cases (nat_beq id i)) [
    | inl t ↦
        rw (t, if◌then◌else◌, cell_at id i heap w t at, close_over)
          (close_over-cell id is (set heap i (record w { once = true })) (record w { once = true })
              (set_hit id i heap w (record w { once = true }) t at)
            ∙ ap (λ b. some (record w { once = b })) (or_true (elem id is)))
    | inr f ↦ elim (Option-cases (get_elem? heap i)) [
      | inl e ↦ rw (f, if◌then◌else◌, e, close_over) (close_over-cell id is heap w at)
      | inr (x, e) ↦
          rw (f, if◌then◌else◌, e, close_over)
            (close_over-cell id is (set heap i (record x { once = true })) w
              (set_miss id i heap x (record x { once = true }) f e ∙ at))
    ]
  ]

  -- The watcher's channel is closed and its `doneCh` is not.
  pub record IsShut (v : T) (w : Watcher T) : Type 0 where
    pub once : w.once ≡ true
    pub not_done : w.done ≡ false
    pub takes : is_filtered w.filter v ≡ false

  dispatch_one-shut :
      (pick : Bool) (capacity : ℕ) (v : T) (w : Watcher T)
      → IsShut v w
      → dispatch_one pick capacity v w ≡ none
  dispatch_one-shut pick capacity v w h =
      let once = h.once in
      let not_done = h.not_done in
      let takes = h.takes in rw (takes, not_done, once, if◌then◌else◌) refl

  dispatch_over-shut :
      (pick : Bool) (capacity : ℕ) (v : T) (id : ℕ) (w : Watcher T) (is : List ℕ)
      (heap : List (Watcher T))
      → get_elem? heap id ≡ some w
      → IsShut v w
      → elem id is ≡ true
      → dispatch_over pick capacity v is heap ≡ none
  unfolding dispatch_over
  dispatch_over-shut pick capacity v id w [] heap at h e = cc
  dispatch_over-shut pick capacity v id w (i ∷ is) heap at h e = elim (Bool-cases (nat_beq id i)) [
    | inl t ↦
        let stops : dispatch_to pick capacity v i heap ≡ none =
          rw (cell_at id i heap w t at, dispatch_to)
            (ap (put_back i heap) (dispatch_one-shut pick capacity v w h)) in
        rw (stops, dispatch_over) refl
    | inr f ↦ elim (Option-cases (get_elem? heap i)) [
      | inl n ↦
          let stops : dispatch_to pick capacity v i heap ≡ none = rw (n, dispatch_to) refl in
          rw (stops, dispatch_over) refl
      | inr (x, at_x) ↦ elim (Option-cases (dispatch_one pick capacity v x)) [
        | inl n ↦
            let stops : dispatch_to pick capacity v i heap ≡ none =
              rw (at_x, dispatch_to) (ap (put_back i heap) n) in
            rw (stops, dispatch_over) refl
        | inr (y, s) ↦
            let goes : dispatch_to pick capacity v i heap ≡ some (set heap i y) =
              rw (at_x, dispatch_to) (ap (put_back i heap) s) in
            rw (goes, dispatch_over)
              (dispatch_over-shut pick capacity v id w is (set heap i y)
                (set_miss id i heap x y f at_x ∙ at) h (ground arith))
      ]
    ]
  ]

  live-not_done :
      (id : ℕ) (wm : WatcherMux T) (w : Watcher T)
      → IsSound wm
      → elem id wm.watchers ≡ true
      → get_elem? wm.heap id ≡ some w
      → w.done ≡ false
  live-not_done id wm w sound live at =
      let (x, at_x, open_x) =
        listed wm.watcher_ch_capacity (elem id wm.watchers) (get_elem? wm.heap id) live
          (sound.cells id) in
      ap (λ (y : Watcher T). y.done) (some_same (sym at ∙ at_x)) ∙ open_x.not_done

  close_mux-open :
      (wm : WatcherMux T)
      → IsSound wm
      → close_mux wm ≡ some (record wm { heap = close_over wm.watchers wm.heap; closed = true })
  unfolding close_mux
  close_mux-open wm h = rw (h.not_closed, if◌then◌else◌) refl

  -- After `Close` every dispatch whose visit includes a watcher that was not cancelled before, and
  -- whose filter takes the message, panics, whatever the runtime picks.
  dispatch-close_mux :
      (capacity : ℕ) (pick : Bool) (v : T) (id : ℕ) (ids : List ℕ) (wm : WatcherMux T)
      (w : Watcher T)
      → Reach capacity wm
      → elem id wm.watchers ≡ true
      → get_elem? wm.heap id ≡ some w
      → is_filtered w.filter v ≡ false
      → elem id ids ≡ true
      → (closed : WatcherMux T) × (close_mux wm ≡ some closed) × (dispatch pick v ids closed ≡ none)
  unfolding dispatch
  dispatch-close_mux capacity pick v id ids wm w r live at takes visited =
      let sound = Reach-IsSound capacity wm r in
      let not_done = live-not_done id wm w sound live at in
      let shut : IsShut v (record w { once = elem id wm.watchers || w.once }) = record {
        once = ap (λ b. b || w.once) live;
        not_done = not_done;
        takes = takes;
      } in
      (
        record wm { heap = close_over wm.watchers wm.heap; closed = true },
        close_mux-open wm sound,
        ap (with_heap (record wm { heap = close_over wm.watchers wm.heap; closed = true })) (
            dispatch_over-shut pick wm.watcher_ch_capacity v id _ ids
              (close_over wm.watchers wm.heap) (close_over-cell id wm.watchers wm.heap w at) shut
              visited),
      )

  -- A dispatch that took the list of watchers before the cancel function of one of them ran, and comes
  -- to that watcher after it, panics or skips it as the runtime picks, if the filter takes the message.
  dispatch-cancel :
      (capacity : ℕ) (v : T) (id : ℕ) (wm : WatcherMux T) (w : Watcher T)
      → Reach capacity wm
      → elem id wm.watchers ≡ true
      → get_elem? wm.heap id ≡ some w
      → is_filtered w.filter v ≡ false
      → (left : WatcherMux T) × (after : Watcher T) × (cancel id wm ≡ some left)
        × (get_elem? left.heap id ≡ some after)
        × (dispatch_one true capacity v after ≡ some after)
        × (dispatch_one false capacity v after ≡ none)
  unfolding cancel
  dispatch-cancel capacity v id wm w r live at takes =
      let not_done = live-not_done id wm w (Reach-IsSound capacity wm r) live at in
      let after : Watcher T = record w { done = true; once = true } in
      (
        record wm { heap = set wm.heap id after; watchers = remove id wm.watchers },
        after,
        rw (at, not_done, cancel_watcher, if◌then◌else◌) refl,
        get_elem?-set wm.heap id id after (get_elem?_lt_length wm.heap id w at)
            ∙ rw ((nat_beq_iff id id).1 refl, if◌then◌else◌) refl,
        rw (takes, if◌then◌else◌) refl,
        rw (takes, if◌then◌else◌) refl,
      )
