-- ===== src/Startup.antt =====
-- How the program starts and stops: `Run` and `Close` of internal/controller/controller.go over the BPF
-- program of internal/adapter/bpf/udplb_user.go, the BPF manager and the health monitor, whose own `Run`
-- and `Close` are in Lifecycle. A call of cilium/ebpf is known by the error that it returns, if any.
pub mod Shutdown
mod Tests
use udplb.Base.{Bool, true, false, Option, none, some, List, [], ◌∷◌, ◌++◌, if◌then◌else◌}
use udplb.Lifecycle.{
  LifecycleError, Runnable, new_runnable, Outcome, blocks, panics, returned, run, run_manager,
  close,
}

-- `running` and `doneCh` of the BPF program, whether it is attached to the interface, the manager, the
-- monitor, and whether `healthCancel` was called.
pub record System : Type 0 where
  pub program_running : Bool
  pub program_done : Bool
  pub attached : Bool
  pub manager : Runnable
  pub monitor : Runnable
  pub cancelled : Bool

abbrev pub new_system : System
new_system = record {
  program_running = false;
  program_done = false;
  attached = false;
  manager = new_runnable;
  monitor = new_runnable;
  cancelled = false;
}

-- A call waits for ever, panics, or returns the errors that it joined; no error is the empty list.
pub data Call : Type 0 where
  waits crashes : Call
  gives : List LifecycleError → System → Call

abbrev pub errors_of : Option LifecycleError → List LifecycleError
errors_of none = []
errors_of (some e) = e ∷ []

-- A call of the manager or of the monitor, with where it leaves it.
abbrev pub on_part : (Runnable → System) → Outcome → Call
on_part put blocks = waits
on_part put panics = crashes
on_part put (returned e r) = gives (errors_of e) (put r)

-- `if err != nil { return err }`.
abbrev pub then_run : Call → (System → Call) → Call
then_run waits rest = waits
then_run crashes rest = crashes
then_run (gives [] s) rest = rest s
then_run (gives (e ∷ es) s) rest = gives (e ∷ es) s

abbrev pub joined : List LifecycleError → Call → Call
joined errs waits = waits
joined errs crashes = crashes
joined errs (gives es s) = gives (errs ++ es) s

-- `errs = errors.Join(errs, err)`, and on.
abbrev pub then_close : Call → (System → Call) → Call
then_close waits rest = waits
then_close crashes rest = crashes
then_close (gives errs s) rest = joined errs (rest s)

-- `Run` of the BPF program: a second one does nothing.
abbrev pub attach : Option LifecycleError → System → Call
attach none s = gives [] (record s { program_running = true; attached = true })
attach (some e) s = gives (e ∷ []) s

unfoldable pub run_program : Option LifecycleError → System → Call
run_program fault s = if s.program_running then gives [] s else attach fault s

abbrev pub close_manager : System → Call
close_manager s = on_part (λ r. record s { manager = r }) (close s.manager)

-- The XDP link, detached if its `Close` returns no error.
abbrev pub close_link : Option LifecycleError → System → Call
close_link none s = gives [] (record s { attached = false })
close_link (some e) s = gives (e ∷ []) s

abbrev pub close_objects : Option LifecycleError → System → Call
close_objects fault s = gives (errors_of fault) s

-- `close(r.doneCh)`.
abbrev pub close_done : System → Call
close_done s = if s.program_done then crashes else gives [] (record s { program_done = true })

-- `Close` of the BPF program: `closePropagationFunc` closes the manager, and `running` is kept.
unfoldable pub close_program : Option LifecycleError → Option LifecycleError → System → Call
unfolding close
close_program link_fault objs_fault s =
    if s.program_running
    then then_close (close_manager s) (λ s1.
      then_close (close_link link_fault s1)
        (λ s2. then_close (close_objects objs_fault s2) close_done))
    else gives [] s

-- `Run` of the controller, with what attaching the program, subscribing to the assignments and the
-- first `SetObjects` return.
unfoldable pub run_controller :
    Option LifecycleError → Option LifecycleError → Option LifecycleError → System → Call
unfolding run_program run run_manager
run_controller attach_fault subscribe_fault set_fault s =
    then_run (run_program attach_fault s) (λ s1.
      then_run (on_part (λ r. record s1 { manager = r }) (run_manager subscribe_fault s1.manager))
        (λ s2.
          then_run (on_part (λ r. record s2 { monitor = r }) (run none s2.monitor))
            (λ s3. gives (errors_of set_fault) s3)))

-- `c.healthCancel()`: the second call closes `doneCh` of the watcher again.
abbrev pub cancel_health : System → Call
cancel_health s = if s.cancelled then crashes else gives [] (record s { cancelled = true })

-- `Close` of the controller.
unfoldable pub close_controller : Option LifecycleError → Option LifecycleError → System → Call
unfolding close_program close
close_controller link_fault objs_fault s = then_close (cancel_health s) (λ s1.
    then_close (on_part (λ r. record s1 { monitor = r }) (close s1.monitor))
      (λ s2. then_close (close_manager s2) (λ s3. close_program link_fault objs_fault s3)))
