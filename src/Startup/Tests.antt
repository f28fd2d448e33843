-- ===== src/Startup/Tests.antt =====
-- The program started and stopped with nothing failing, and with the interface missing.
use udplb.Base.{none, some, [], ◌∷◌, ◌≡◌, refl}
use udplb.Lifecycle.{resource_failed}
use udplb.Startup.{System, new_system, gives, run_controller, run_program}
use udplb.Startup.Shutdown.{Stopped, close_controller-Stopped}

attach_failed_run :
    run_controller (some resource_failed) none none new_system
    ≡ gives (resource_failed ∷ []) new_system
unfolding run_controller run_program
attach_failed_run = refl

close_controller-Stopped_example :
    (up : System) × (down : System) × Stopped none none none none none up down
close_controller-Stopped_example = close_controller-Stopped none none none none none
