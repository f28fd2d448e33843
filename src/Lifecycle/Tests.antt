-- ===== src/Lifecycle/Tests.antt =====
-- The theorems on `Run` and `Close` at concrete states.
use udplb.Base.{true, false, none, some, ◌≡◌, refl, ◌⊎◌}
use udplb.Lifecycle.{
  LifecycleError, runnable_must_be_running_to_be_closed, Runnable, new_runnable, blocks, returned,
  run, run_manager, close,
}
use udplb.Lifecycle.Contract.{Reachable, created, ran, Stops, close-Reachable}
use udplb.Lifecycle.Deadlock.{run_manager-blocks}

abbrev running_runnable : Runnable
running_runnable = record { locked = false; running = true; closed = false; terminated = false }

running_runnable-Reachable : Reachable running_runnable
unfolding run
running_runnable-Reachable = ran none none new_runnable running_runnable created refl

close-Reachable_example :
    ((running_runnable.running ≡ true) × Stops running_runnable)
    ⊎ ((running_runnable.running ≡ false)
        × (close running_runnable
            ≡ returned (some runnable_must_be_running_to_be_closed) running_runnable))
close-Reachable_example = close-Reachable running_runnable running_runnable-Reachable

run_manager-blocks_example :
    (e : LifecycleError) × (left : Runnable) × (run_manager none running_runnable
      ≡ returned (some e) left)
    × (left.running ≡ true)
    × (left.closed ≡ false)
    × (run_manager none left ≡ blocks)
    × (close left ≡ blocks)
run_manager-blocks_example = run_manager-blocks none none running_runnable refl refl
