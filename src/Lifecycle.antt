-- ===== src/Lifecycle.antt =====
-- `Run` and `Close` of the runnables (internal/types/interfaces.go): internal/adapter/wal,
-- internal/controller/dvds, internal/adapter/monitor and internal/adapter/bpf/manager.go check
-- `running` first in `Close`; internal/adapter/cluster checks `closed` first and gives the mutex up
-- while it waits, so that its `Close` is two steps. The goroutines that `Run` starts are not modelled:
-- `Close` waits for them or for a timeout, whichever is first, and goes on.
pub mod Contract
pub mod Deadlock
mod Tests
use udplb.Base.{Bool, true, false, Option, none, some, if◌then◌else◌}

-- The errors of the lifecycle, and that of a resource that cannot be opened.
pub data LifecycleError : Type 0 where
  already_running cannot_run_closed_runnable : LifecycleError
  already_closed runnable_must_be_running_to_be_closed : LifecycleError
  resource_failed : LifecycleError

-- `mu`, `running`, `closed`, and whether `terminateCh` is closed.
pub record Runnable : Type 0 where
  pub locked : Bool
  pub running : Bool
  pub closed : Bool
  pub terminated : Bool

abbrev pub new_runnable : Runnable
new_runnable = record { locked = false; running = false; closed = false; terminated = false }

-- A call waits for the mutex for ever, panics (close of a closed channel), or returns.
pub data Outcome : Type 0 where
  blocks panics : Outcome
  returned : Option LifecycleError → Runnable → Outcome

-- `Lock` before a body that unlocks again.
abbrev pub holding : Runnable → Outcome → Outcome
holding r body = if r.locked then blocks else body

-- `Run` behind its guards: the resource that it opens may fail.
abbrev pub started : Option LifecycleError → Runnable → Outcome
started none r = returned none (record r { running = true })
started (some e) r = returned (some e) r

-- `Run` of all runnables but the BPF manager.
unfoldable pub run : Option LifecycleError → Runnable → Outcome
run fault r = holding r (
    if r.running
    then returned (some already_running) r
    else if r.closed
    then returned (some cannot_run_closed_runnable) r
    else started fault r)

-- `Run` of the BPF manager: the two early returns do not unlock.
unfoldable pub run_manager : Option LifecycleError → Runnable → Outcome
run_manager fault r = holding r (
    if r.running
    then returned (some already_running) (record r { locked = true })
    else if r.closed
    then returned (some cannot_run_closed_runnable) (record r { locked = true })
    else started fault r)

-- `close(terminateCh)` and what follows it in a `Close` that keeps the mutex.
abbrev pub terminate : Runnable → Outcome
terminate r =
    if r.terminated
    then panics
    else returned none (record r { running = false; closed = true; terminated = true })

-- `Close` of the WAL, the DVDS, the monitors and the BPF manager.
unfoldable pub close : Runnable → Outcome
close r = holding r (
    if r.running
    then if r.closed then returned (some already_closed) r else terminate r
    else returned (some runnable_must_be_running_to_be_closed) r)

-- `Close` of the clusters, up to the wait: no error means that it goes on to wait.
unfoldable pub begin_close : Runnable → Outcome
begin_close r = holding r (
    if r.closed
    then returned (some already_closed) r
    else if r.running
    then if r.terminated then panics else returned none (record r { terminated = true })
    else returned (some runnable_must_be_running_to_be_closed) r)

-- The rest of it.
unfoldable pub end_close : Runnable → Outcome
end_close r = holding r (returned none (record r { running = false; closed = true }))
