-- ===== src/WatcherMux.antt =====
-- internal/util/watchermux.go: a multiplexer of messages to watchers. A watcher is shared by the map,
-- by the closure that `Watch` returns and by its receiver: watchers stand in a heap, and since both
-- count from 0 the id of a watcher is its place there. `mu` makes `Watch`, the cancel function and
-- `getWatcherList` one step each; `Dispatch` works on the list after it gave the mutex up, so that other
-- steps may come between. `none` is a panic.
pub mod Sends
pub mod Sound
pub mod Reach
pub mod Misuse
mod Tests
use udplb.Base.{
  ℕ, zero, suc, ◌+◌, Bool, true, false, not, Option, none, some, List, [], ◌∷◌, ◌++◌, ltb, nat_beq,
  if◌then◌else◌, get_elem?, set, length,
}

-- `ch` is the buffer of the channel and `once` whether it is closed (by `closeOnce`).
pub record Watcher {ℓ} (T : Type ℓ) : Type ℓ where
  pub ch : List T
  pub once : Bool
  pub done : Bool
  pub filter : Option (T → Bool)

pub record WatcherMux {ℓ} (T : Type ℓ) : Type ℓ where
  pub heap : List (Watcher T)
  pub watchers : List ℕ
  pub watcher_ch_capacity : ℕ
  pub closed : Bool

abbrev pub remove : ℕ → List ℕ → List ℕ
remove id [] = []
remove id (i ∷ is) = let rest = remove id is in if nat_beq id i then rest else i ∷ rest

module _ {ℓ} {T : Type ℓ} where
  abbrev pub new_watcher_mux : ℕ → WatcherMux T
  new_watcher_mux capacity = record {
    heap = [];
    watchers = [];
    watcher_ch_capacity = capacity;
    closed = false;
  }

  abbrev pub new_watcher : Option (T → Bool) → Watcher T
  new_watcher filter = record { ch = []; once = false; done = false; filter = filter }

  -- The id of the new watcher is the length of the heap.
  unfoldable pub watch : Option (T → Bool) → WatcherMux T → WatcherMux T
  watch filter wm = record wm {
    heap = wm.heap ++ (new_watcher filter ∷ []);
    watchers = wm.watchers ++ (length wm.heap ∷ []);
  }

  -- The cancel function on the watcher that it holds: `close(w.doneCh)` panics the second time.
  abbrev pub cancel_watcher : ℕ → Option (Watcher T) → WatcherMux T → Option (WatcherMux T)
  cancel_watcher id none wm = none
  cancel_watcher id (some w) wm =
      if w.done
      then none
      else some (record wm {
        heap = set wm.heap id (record w { done = true; once = true });
        watchers = remove id wm.watchers;
      })

  unfoldable pub cancel : ℕ → WatcherMux T → Option (WatcherMux T)
  cancel id wm = cancel_watcher id (get_elem? wm.heap id) wm

  -- `w.filter != nil && !w.filter(v)`.
  abbrev pub is_filtered : Option (T → Bool) → T → Bool
  is_filtered none v = false
  is_filtered (some f) v = not (f v)

  -- `case w.ch <- v` if it is ready, and else what the other cases leave.
  abbrev pub send : ℕ → T → Watcher T → Option (Watcher T)
  send capacity v w =
      if w.once
      then none
      else some (if ltb (length w.ch) capacity then record w { ch = w.ch ++ (v ∷ []) } else w)

  -- The select of a dispatch. With `doneCh` closed two cases may be ready: `pick` is the runtime's
  -- choice of `<-w.doneCh`. The default case and the time limit leave the watcher as it is.
  abbrev pub dispatch_one : Bool → ℕ → T → Watcher T → Option (Watcher T)
  dispatch_one pick capacity v w =
      if is_filtered w.filter v
      then some w
      else if w.done
      then if pick then some w else send capacity v w
      else send capacity v w

  abbrev pub put_back : ℕ → List (Watcher T) → Option (Watcher T) → Option (List (Watcher T))
  put_back i heap none = none
  put_back i heap (some w) = some (set heap i w)

  abbrev pub dispatch_to : Bool → ℕ → T → ℕ → List (Watcher T) → Option (List (Watcher T))
  dispatch_to pick capacity v i heap = elim (get_elem? heap i) [
    | none ↦ none
    | some w ↦ put_back i heap (dispatch_one pick capacity v w)
  ]

  -- The loop of a dispatch over the watchers in the order of the list.
  unfoldable pub dispatch_over :
      Bool → ℕ → T → List ℕ → List (Watcher T) → Option (List (Watcher T))
  dispatch_over pick capacity v [] heap = some heap
  dispatch_over pick capacity v (i ∷ is) heap = elim (dispatch_to pick capacity v i heap) [
    | none ↦ none
    | some heap' ↦ dispatch_over pick capacity v is heap'
  ]

  abbrev pub with_heap : WatcherMux T → Option (List (Watcher T)) → Option (WatcherMux T)
  with_heap wm none = none
  with_heap wm (some heap) = some (record wm { heap = heap })

  -- `Dispatch` with no other step between, the watchers in the order `ids`.
  unfoldable pub dispatch : Bool → T → List ℕ → WatcherMux T → Option (WatcherMux T)
  unfolding dispatch_over
  dispatch pick v ids wm = with_heap wm (dispatch_over pick wm.watcher_ch_capacity v ids wm.heap)

  -- `w.closeOnce.Do(...)` for the watchers of a list.
  unfoldable pub close_over : List ℕ → List (Watcher T) → List (Watcher T)
  close_over [] heap = heap
  close_over (i ∷ is) heap = elim (get_elem? heap i) [
    | none ↦ close_over is heap
    | some w ↦ close_over is (set heap i (record w { once = true }))
  ]

  -- `Close`: `close(wm.doneCh)` panics the second time.
  unfoldable pub close_mux : WatcherMux T → Option (WatcherMux T)
  unfolding close_over
  close_mux wm =
      if wm.closed
      then none
      else some (record wm { heap = close_over wm.watchers wm.heap; closed = true })

  abbrev pub received : ℕ → List (Watcher T) → Watcher T → List T → Option (T × List (Watcher T))
  received i heap w [] = none
  received i heap w (v ∷ vs) = some (v, set heap i (record w { ch = vs }))
