-- ===== src/Startup/Shutdown.antt =====
-- A start of the controller, whatever fails in it, and the stop after it.
use udplb.Base.{
  Bool, true, false, if◌then◌else◌, Bool-cases, inl, inr, ap, ◌∙◌, Option, none, some, List, [],
  ◌∷◌, ◌++◌, ◌≡◌, refl,
}
use udplb.Lifecycle.{
  LifecycleError, Runnable, new_runnable, runnable_must_be_running_to_be_closed, run, run_manager,
  close,
}
use udplb.Startup.{
  System, new_system, crashes, gives, errors_of, run_program, run_controller, close_program,
  close_controller,
}

-- The first of the faults that `Run` meets.
abbrev pub first_fault :
    Option LifecycleError → Option LifecycleError → Option LifecycleError → List LifecycleError
first_fault (some e) b c = e ∷ []
first_fault none (some e) c = e ∷ []
first_fault none none c = errors_of c

-- What `Close` reports that nothing failed for: the parts that do not run, or that it stopped itself.
abbrev pub not_running : Option LifecycleError → Option LifecycleError → List LifecycleError
not_running (some e) b =
    runnable_must_be_running_to_be_closed ∷ runnable_must_be_running_to_be_closed ∷ []
not_running none (some e) =
    runnable_must_be_running_to_be_closed ∷ runnable_must_be_running_to_be_closed
    ∷ runnable_must_be_running_to_be_closed ∷ []
not_running none none = runnable_must_be_running_to_be_closed ∷ []

-- The errors of the two calls that release the program, if it was attached.
abbrev pub release_faults :
    Option LifecycleError → Option LifecycleError → Option LifecycleError → List LifecycleError
release_faults (some e) link_fault objs_fault = []
release_faults none link_fault objs_fault = errors_of link_fault ++ errors_of objs_fault

-- Whether the program stays attached: it was, and closing its link failed.
abbrev pub still_attached : Option LifecycleError → Option LifecycleError → Bool
still_attached none (some e) = true
still_attached _ _ = false

-- A new controller that is run and then closed, twice.
pub record Stopped (a b c l o : Option LifecycleError) (up down : System) : Type 0 where
  pub ran : run_controller a b c new_system ≡ gives (first_fault a b c) up
  pub closed : close_controller l o up ≡ gives (not_running a b ++ release_faults a l o) down
  pub manager_stopped : down.manager.running ≡ false
  pub monitor_stopped : down.monitor.running ≡ false
  pub detached : down.attached ≡ still_attached a l
  pub twice : close_controller l o down ≡ crashes

-- The parts that run after `Run`, and after `Close`.
abbrev up_after : Option LifecycleError → Option LifecycleError → System
up_after (some e) b = new_system
up_after none (some e) = record new_system { program_running = true; attached = true }
up_after none none = record {
  program_running = true;
  program_done = false;
  attached = true;
  manager = record new_runnable { running = true };
  monitor = record new_runnable { running = true };
  cancelled = false;
}

abbrev stopped_part : Runnable → Runnable
stopped_part r =
    if r.running then record r { running = false; closed = true; terminated = true } else r

stopped_part_running : (r : Runnable) → (stopped_part r).running ≡ false
stopped_part_running r = elim (Bool-cases r.running) [
  | inl e ↦ rw (e, if◌then◌else◌) refl
  | inr e ↦ ap (λ x. x.running) (if_off r.running _ r e) ∙ e
]
  where
    if_off : (b : Bool) (x y : Runnable) → b ≡ false → (if b then x else y) ≡ y
    if_off b x y e = rw (e, if◌then◌else◌) refl

abbrev down_after : Option LifecycleError → Option LifecycleError → Option LifecycleError → System
down_after a b l =
    let up = up_after a b in
    record up {
      program_done = up.program_running;
      attached = still_attached a l;
      manager = stopped_part up.manager;
      monitor = stopped_part up.monitor;
      cancelled = true;
    }

Stopped-of :
    (a b c l o : Option LifecycleError)
    → run_controller a b c new_system ≡ gives (first_fault a b c) (up_after a b)
    → close_controller l o (up_after a b)
      ≡ gives (not_running a b ++ release_faults a l o) (down_after a b l)
    → Stopped a b c l o (up_after a b) (down_after a b l)
unfolding close_controller
Stopped-of a b c l o r q = record {
  ran = r;
  closed = q;
  manager_stopped = stopped_part_running (up_after a b).manager;
  monitor_stopped = stopped_part_running (up_after a b).monitor;
  detached = refl;
  twice = refl;
}

-- Whatever fails in `Run` of a new controller and in the release of the program, `Run` returns the first
-- fault, and a `Close` after it neither waits for ever nor panics: no part runs any more, and the program
-- is attached only if closing its link failed. But `Close` always returns an error, also when nothing
-- failed, since closing the program closes the manager again; and a second `Close` panics.
pub close_controller-Stopped :
    (a b c l o : Option LifecycleError)
    → (up : System) × (down : System) × Stopped a b c l o up down
unfolding run_controller close_controller run_program close_program run run_manager close
close_controller-Stopped (some e) b c l o = (_, _, Stopped-of (some e) b c l o refl refl)
close_controller-Stopped none (some e) c none none =
    (_, _, Stopped-of none (some e) c none none refl refl)
close_controller-Stopped none (some e) c none (some f) =
    (_, _, Stopped-of none (some e) c none (some f) refl refl)
close_controller-Stopped none (some e) c (some d) none =
    (_, _, Stopped-of none (some e) c (some d) none refl refl)
close_controller-Stopped none (some e) c (some d) (some f) =
    (_, _, Stopped-of none (some e) c (some d) (some f) refl refl)
close_controller-Stopped none none c none none = (_, _, Stopped-of none none c none none refl refl)
close_controller-Stopped none none c none (some f) =
    (_, _, Stopped-of none none c none (some f) refl refl)
close_controller-Stopped none none c (some d) none =
    (_, _, Stopped-of none none c (some d) none refl refl)
close_controller-Stopped none none c (some d) (some f) =
    (_, _, Stopped-of none none c (some d) (some f) refl refl)
