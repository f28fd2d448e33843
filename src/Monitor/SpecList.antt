-- ===== src/Monitor/SpecList.antt =====
-- internal/adapter/monitor/backend_spec_map.go: `Watch` and `Close` of the list of specs. The goroutine
-- that the first `Watch` starts is a step of its own; `none` is a panic, or a step that is not due.
use udplb.Base.{
  ℕ, ◌<◌, ◌≡◌, refl, Bool, true, false, Option, none, some, List, [], ◌∷◌, Map, lt→ltb,
  if◌then◌else◌,
}
use udplb.Types.{Uuid, BackendSpec}
use udplb.WatcherMux.{Watcher, WatcherMux, new_watcher_mux, watch, dispatch, close_mux}

-- `is_due` says whether the goroutine still has to dispatch.
pub record SpecList : Type 0 where
  pub spec_map : Map Uuid BackendSpec
  pub watcher_mux : WatcherMux (Map Uuid BackendSpec)
  pub dispatched : Bool
  pub is_due : Bool
  pub is_terminated : Bool

abbrev pub new_spec_list : Map Uuid BackendSpec → WatcherMux (Map Uuid BackendSpec) → SpecList
new_spec_list specs wm = record {
  spec_map = specs;
  watcher_mux = wm;
  dispatched = false;
  is_due = false;
  is_terminated = false;
}

-- `Watch`.
unfoldable pub watch_specs : SpecList → SpecList
unfolding watch
watch_specs b =
    if b.dispatched
    then record b { watcher_mux = watch none b.watcher_mux }
    else record b { watcher_mux = watch none b.watcher_mux; dispatched = true; is_due = true }

abbrev pub with_mux :
    Option (WatcherMux (Map Uuid BackendSpec))
    → (WatcherMux (Map Uuid BackendSpec) → SpecList)
    → Option SpecList
with_mux none f = none
with_mux (some wm) f = some (f wm)

-- The goroutine.
unfoldable pub dispatch_specs : SpecList → Option SpecList
unfolding dispatch
dispatch_specs b =
    if b.is_due
    then with_mux (dispatch false b.spec_map b.watcher_mux.watchers b.watcher_mux)
        (λ wm. record b { watcher_mux = wm; is_due = false })
    else none

-- `Close`: the second `close(b.terminateCh)` panics.
unfoldable pub close_specs : SpecList → Option SpecList
unfolding close_mux
close_specs b =
    if b.is_terminated
    then none
    else with_mux (close_mux b.watcher_mux)
        (λ wm. record b { watcher_mux = wm; is_terminated = true })

abbrev pub watcher_with : List (Map Uuid BackendSpec) → Watcher (Map Uuid BackendSpec)
watcher_with ch = record { ch = ch; once = false; done = false; filter = none }

then_watch : Option SpecList → Option SpecList
unfolding watch_specs
then_watch none = none
then_watch (some b) = some (watch_specs b)

-- With room in the channels, the first watcher finds the map, and one that registers after the map was
-- dispatched finds nothing and no dispatch is due any more.
watch_specs-late :
    (specs : Map Uuid BackendSpec) (capacity : ℕ)
    → 0 < capacity
    → then_watch (dispatch_specs (watch_specs (new_spec_list specs (new_watcher_mux capacity))))
      ≡ some (record {
        spec_map = specs;
        watcher_mux = record {
          heap = watcher_with (specs ∷ []) ∷ watcher_with [] ∷ [];
          watchers = 0 ∷ 1 ∷ [];
          watcher_ch_capacity = capacity;
          closed = false;
        };
        dispatched = true;
        is_due = false;
        is_terminated = false;
      })
unfolding then_watch watch_specs dispatch_specs
watch_specs-late specs capacity h = rw (lt→ltb 0 capacity h, if◌then◌else◌) refl
