-- ===== src/Health.antt =====
-- internal/adapter/monitor/backend_state.go: the probes of the backends, and their way to `healthLoop` of
-- internal/controller/controller.go. A connection is known by what its calls return; a UDP socket that
-- `net.DialTimeout` gives is a parameter, and so is the order in which Go visits the map of backends.
-- The entries reach the loop in the order dispatched, as those of one watcher with room do.
pub mod Events
pub mod Round
mod Tests
use udplb.Base.{
  ℕ, Bool, true, false, Option, none, some, List, [], ◌∷◌, if◌then◌else◌, Map, insert,
  bytes_comparable,
}
use udplb.Types.{Uuid, State, available, unavailable, BackendSpec, Backend, BackendStatusEntry}
use udplb.Controller.{Controller, health_event}

-- Whether the calls on a connection return no error, and what is read after a write.
pub record Conn : Type 0 where
  pub set_deadline : Bool
  pub write_succeeds : List ℕ → Bool
  pub read : List ℕ → Option (List ℕ)

abbrev pub probe_payload : List ℕ
probe_payload =
    68 ∷ 73 ∷ 85 ∷ 85 ∷ 0 ∷ 0 ∷ 0 ∷ 0 ∷ 0 ∷ 0 ∷ 0 ∷ 0 ∷ 0 ∷ 0 ∷ 0 ∷ 0 ∷ 0 ∷ 0 ∷ 0 ∷ 0 ∷ []

abbrev pub state_of_read : Option (List ℕ) → State
state_of_read none = unavailable
state_of_read (some buf) = available

-- `probe` on what dialling gives.
unfoldable pub probe : Option Conn → State
probe none = unavailable
probe (some conn) =
    if conn.set_deadline
    then if conn.write_succeeds probe_payload
      then state_of_read (conn.read probe_payload)
      else unavailable
    else unavailable

-- `backendSpecs[b.Id] = b.Spec` for the backends.
unfoldable pub new_backend_specs : List Backend → Map Uuid BackendSpec → Map Uuid BackendSpec
new_backend_specs [] specs = specs
new_backend_specs (b ∷ bs) specs = new_backend_specs bs (insert b.id b.spec specs)

-- One tick of `healthCheckLoop` over the map, in the order visited: the entries dispatched.
unfoldable pub health_round :
    (BackendSpec → Option Conn) → Map Uuid BackendSpec → List BackendStatusEntry
unfolding probe
health_round dial [] = []
health_round dial ((id, spec) ∷ backends) =
    record { backend_id = id; state = probe (dial spec) } ∷ health_round dial backends

-- `healthLoop` on the entries.
unfoldable pub health_loop :
    (List ℕ → List ℕ) → List BackendStatusEntry → Controller → Option Controller
health_loop order [] c = some c
health_loop order (entry ∷ entries) c = elim (health_event order entry c) [
  | none ↦ none
  | some (c1, o) ↦ health_loop order entries c1
]
