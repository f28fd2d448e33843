-- ===== src/Controller/Tests.antt =====
-- Runs of the controller, and its theorems at concrete states.
use udplb.Base.{
  pos, ℕ, ◌≡◌, refl, some, List, [], ◌∷◌, arith, replicate, lookup, bytes_comparable, IsMap,
}
use Prim.Native.Nat.{◌*◌}
use udplb.Types.{Uuid, Backend, BackendStatusEntry, Assignment, State, available, unavailable}
use udplb.Rlt.Reverse.{reverse_coordinates_lookup_table}
use udplb.Controller.{
  Controller, Objects, filter_available, recompute_and_apply, health_event, assignment_event,
  find_backend,
}
use udplb.Controller.Remap.{At}
use udplb.Controller.Drift.{recompute_twice-misroutes}
use udplb.Controller.Events.{HealthStep, health_event-HealthStep, assignment_event-routes}

abbrev backend : ℕ → State → Backend
backend i s = record {
  id = replicate 16 i;
  spec = record {
    ip = 10 ∷ 0 ∷ 0 ∷ i ∷ [];
    port = pos 9000;
    mac_addr = replicate 6 i;
    state = available;
  };
  status = record { state = s };
  coordinates = replicate 4 (i * 16843009);
}

abbrev session : Uuid
session = replicate 16 200

abbrev identity : List ℕ → List ℕ
identity ks = ks

-- The first backend is down, and the session is on the third.
abbrev one_down : Controller
one_down = record {
  backends = backend 1 unavailable ∷ backend 2 available ∷ backend 3 available ∷ [];
  lookup_table_size = 7;
  session_map = (session, 2) ∷ [];
}

abbrev table : List ℕ
table = 1 ∷ 1 ∷ 0 ∷ 1 ∷ 0 ∷ 0 ∷ 1 ∷ []

abbrev routed : Controller
routed = record one_down { session_map = (session, 1) ∷ [] }

abbrev set_first : Objects
set_first = record {
  backend_list = backend 2 available ∷ backend 3 available ∷ [];
  lookup_table = table;
  session_map = (session, 1) ∷ [];
}

first_call : recompute_and_apply identity one_down ≡ some (routed, some set_first)
unfolding recompute_and_apply reverse_coordinates_lookup_table
first_call = refl

-- With no event in between, the next call routes the session of the third backend to the second.
abbrev drifted : Controller
drifted = record one_down { session_map = (session, 0) ∷ [] }

abbrev set_second : Objects
set_second = record set_first { session_map = (session, 0) ∷ [] }

second_call : recompute_and_apply identity routed ≡ some (drifted, some set_second)
unfolding recompute_and_apply reverse_coordinates_lookup_table
second_call = refl

one_down-IsMap : IsMap one_down.session_map
one_down-IsMap = (refl, tt)

recompute_twice-misroutes_example :
    At set_first.backend_list 1 (replicate 16 3) × ¬ At set_second.backend_list 0 (replicate 16 3)
recompute_twice-misroutes_example =
    recompute_twice-misroutes identity one_down routed drifted set_first set_second session 2 1 0
      (backend 3 available) (backend 2 available) (omega arith) one_down-IsMap refl refl first_call
      refl refl (λ e. cc) second_call refl

abbrev recovered : BackendStatusEntry
recovered = record { backend_id = replicate 16 1; state = available }

health_event-HealthStep_example :
    HealthStep identity recovered one_down
      (find_backend recovered.backend_id 0 one_down.backends)
      (health_event identity recovered one_down)
health_event-HealthStep_example = health_event-HealthStep identity recovered one_down

abbrev assigned : Assignment
assigned = record { backend_id = replicate 16 3; session_id = session }

abbrev empty : Controller
empty = record one_down { session_map = [] }

assigned_call :
    recompute_and_apply identity (assignment_event assigned empty) ≡ some (routed, some set_first)
unfolding recompute_and_apply assignment_event reverse_coordinates_lookup_table
assigned_call = refl

found_third : find_backend assigned.backend_id 0 empty.backends ≡ some 2
unfolding find_backend
found_third = refl

third_available : At (filter_available empty.backends) 1 assigned.backend_id
unfolding filter_available
third_available = (backend 3 available, refl, refl)

assignment_event-routes_example :
    (k : ℕ) × (lookup session set_first.session_map ≡ some k)
    × At set_first.backend_list k (replicate 16 3)
assignment_event-routes_example =
    assignment_event-routes identity assigned empty routed set_first 2 1 (omega arith) tt
      found_third assigned_call third_available
