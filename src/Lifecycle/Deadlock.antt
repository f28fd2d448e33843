-- ===== src/Lifecycle/Deadlock.antt =====
-- internal/adapter/bpf/manager.go: a refused `Run` keeps the mutex.
use udplb.Base.{true, false, Option, some, if◌then◌else◌, ◌≡◌, refl, arith, ◌||◌}
use udplb.Lifecycle.{
  LifecycleError, already_running, cannot_run_closed_runnable, Runnable, blocks, returned,
  run_manager, close,
}

stuck : Runnable → Runnable
stuck r = record r { locked = true }

-- On a BPF manager that runs or was closed, `Run` returns an error and changes neither flag, but from
-- then on every further `Run` and `Close` waits for the mutex for ever.
pub run_manager-blocks :
    (fault fault' : Option LifecycleError) (r : Runnable)
    → r.locked ≡ false
    → (r.running || r.closed) ≡ true
    → (e : LifecycleError) × (left : Runnable) × (run_manager fault r ≡ returned (some e) left)
      × (left.running ≡ r.running)
      × (left.closed ≡ r.closed)
      × (run_manager fault' left ≡ blocks)
      × (close left ≡ blocks)
unfolding run_manager close stuck
run_manager-blocks fault fault' r h busy = (
  if r.running then already_running else cannot_run_closed_runnable,
  stuck r,
  ground arith,
  refl,
  refl,
  refl,
  refl,
)
