-- ===== src/StateMachine/Tests.antt =====
-- Runs of the state machines, and the theorems at concrete inputs.
use udplb.Base.{
  ℕ, true, false, none, some, List, [], ◌∷◌, ◌⊎◌, inr, nat_beq, ◌≡◌, refl, arith, IsMap, lookup,
  nat_comparable, bytes_comparable, Map,
}
use udplb.Types.{Command, Assignment, Uuid}
use udplb.StateMachine.{Error, copy_map, exec_options}
use udplb.StateMachine.Hashmap.{run}
use udplb.StateMachine.Hashmap.Replay.{run-register, run-replay, register}
use udplb.StateMachine.Array.{execute_delete}
use udplb.StateMachine.Counter.{
  Counter, new_counter, add, counter_with_allow_overflow, counter_with_maximum_value,
}
use udplb.StateMachine.Counter.Bounds.{IsPositive, Added, add-Added}

-- The assignment map of map.go's comment.
abbrev transform_assignment : Assignment → Error ⊎ (Uuid × Uuid)
transform_assignment a = inr (a.session_id, a.backend_id)

abbrev assignments : List (Command × Assignment)
assignments =
    (Command.put, record { backend_id = 1 ∷ []; session_id = 7 ∷ [] })
    ∷ (Command.put, record { backend_id = 2 ∷ []; session_id = 8 ∷ [] })
    ∷ (Command.put, record { backend_id = 3 ∷ []; session_id = 7 ∷ [] })
    ∷ (Command.delete, record { backend_id = 2 ∷ []; session_id = 8 ∷ [] })
    ∷ (Command.add, record { backend_id = 2 ∷ []; session_id = 7 ∷ [] })
    ∷ []

replayed : run transform_assignment assignments [] ≡ ((7 ∷ [], 3 ∷ []) ∷ [])
unfolding run
replayed = refl

run-register_example :
    ((k : Uuid)
      → lookup k (run transform_assignment assignments [])
        ≡ register transform_assignment k assignments none)
    × IsMap (run transform_assignment assignments [])
run-register_example = run-register transform_assignment assignments [] tt

run-replay_example :
    lookup (7 ∷ []) (run transform_assignment assignments (run transform_assignment assignments []))
    ≡ lookup (7 ∷ []) (run transform_assignment assignments [])
run-replay_example = run-replay transform_assignment assignments [] tt (7 ∷ [])

abbrev small : Map ℕ ℕ
small = (1, 5) ∷ (2, 6) ∷ []

copied : copy_map small ≡ small
unfolding copy_map
copied = refl

exec_options_runs :
    exec_options (counter_with_maximum_value 10 ∷ counter_with_allow_overflow ∷ []) new_counter
    ≡ inr (record { allow_overflow = true; max_val = some 10; min_val = none; state = 0 })
unfolding exec_options
exec_options_runs = refl

deleted : execute_delete (some nat_beq) 3 (1 ∷ 3 ∷ 5 ∷ 3 ∷ []) ≡ (none, 1 ∷ 5 ∷ 3 ∷ [])
unfolding execute_delete
deleted = refl

five-IsPositive : IsPositive 5
five-IsPositive = record { ne_zero = ground arith; lt = omega arith }

add-Added_example : Added 5 new_counter (add 5 new_counter)
add-Added_example = add-Added 5 new_counter five-IsPositive (omega arith) refl

abbrev capped : Counter
capped = record { allow_overflow = false; max_val = some 3; min_val = none; state = 0 }

abbrev at_the_top : Counter
at_the_top = record {
  allow_overflow = true;
  max_val = none;
  min_val = none;
  state = 9223372036854775807;
}
