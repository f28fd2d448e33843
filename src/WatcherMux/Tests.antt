-- ===== src/WatcherMux/Tests.antt =====
-- A run of the multiplexer, and the theorems on it.
use udplb.Base.{
  ℕ, Bool, true, false, none, some, List, [], ◌∷◌, ◌≡◌, refl, elem, get_elem?, ltb, arith,
}
use udplb.WatcherMux.{Watcher, WatcherMux, watch, dispatch}
use udplb.WatcherMux.Sends.{offered_at}
use udplb.WatcherMux.Sound.{Visits}
use udplb.WatcherMux.Reach.{Reach, created, stepped, watches, dispatch-Reach}

abbrev small : ℕ → Bool
small n = ltb n 5

abbrev two_watchers : WatcherMux ℕ
two_watchers = record {
  heap =
      (record { ch = []; once = false; done = false; filter = none })
      ∷ (record { ch = []; once = false; done = false; filter = some small })
      ∷ [];
  watchers = 0 ∷ 1 ∷ [];
  watcher_ch_capacity = 1;
  closed = false;
}

two_watchers-Reach : Reach 1 two_watchers
unfolding watch
two_watchers-Reach = stepped (stepped created (watches none refl)) (watches (some small) refl)

backwards-Visits : Visits (1 ∷ 0 ∷ []) (0 ∷ 1 ∷ [])
backwards-Visits = record { distinct = (refl, (refl, tt)); same = λ i. ground arith }

dispatch-Reach_example :
    (heap : List (Watcher ℕ)) × (dispatch true 9 (1 ∷ 0 ∷ []) two_watchers
      ≡ some (record two_watchers { heap = heap }))
    × ((i : ℕ)
        → get_elem? heap i ≡ offered_at (elem i (0 ∷ 1 ∷ [])) 1 9 (get_elem? two_watchers.heap i))
dispatch-Reach_example =
    dispatch-Reach 1 true 9 (1 ∷ 0 ∷ []) two_watchers two_watchers-Reach backwards-Visits

abbrev first_watcher : Watcher ℕ
first_watcher = record { ch = []; once = false; done = false; filter = none }
