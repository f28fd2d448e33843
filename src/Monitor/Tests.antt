-- ===== src/Monitor/Tests.antt =====
-- Runs of the monitors, and their theorems at concrete inputs.
use udplb.Base.{
  pos, ℕ, ◌≡◌, refl, true, false, Option, none, some, List, [], ◌∷◌, inr, bytes_comparable, lookup,
  replicate,
}
use udplb.Types.{Uuid, Backend, Assignment, available, new_backend}
use udplb.WatcherMux.{new_watcher_mux, watch}
use udplb.Config.{BackendConfig, endpoint, build_backends}
use udplb.Config.Build.{enabled_of}
use udplb.Monitor.Specs.{spec_map_from, last_spec, spec_map_from-build_backends}
use udplb.Monitor.Assignments.{
  Read, terminated, timed_out, failed, datagram, recv_loop, one_watcher, recv_loop-one_watcher,
}

-- A text parses to itself.
abbrev parse : List ℕ → Option (List ℕ)
parse [] = none
parse (b ∷ bs) = some (b ∷ bs)

-- The id of a text in a namespace, without the hashing.
abbrev sha1_in : ℕ → List ℕ → Uuid
sha1_in namespace text = namespace ∷ text

abbrev entry : ℕ → BackendConfig
entry i = record { enabled = true; ip = 49 ∷ i ∷ []; mac = replicate 6 i; port = pos 80 }

abbrev entries : List BackendConfig
entries = entry 1 ∷ record (entry 2) { enabled = false } ∷ entry 3 ∷ []

abbrev built_from : BackendConfig → Backend
built_from bc =
    new_backend (sha1_in 7 (endpoint bc))
      (record { ip = bc.ip; port = bc.port; mac_addr = bc.mac; state = available })
      (record { state = available })

abbrev built_entries : List Backend
built_entries = built_from (entry 1) ∷ built_from (entry 3) ∷ []

entries_run : build_backends parse parse (sha1_in 7) 0 entries ≡ inr built_entries
unfolding build_backends
entries_run = refl

spec_map_from-build_backends_example :
    lookup (sha1_in 6 (endpoint (entry 3))) (spec_map_from parse parse (sha1_in 6) entries [])
    ≡ last_spec parse parse
        (sha1_in 6)
        (sha1_in 6 (endpoint (entry 3)))
        (enabled_of entries)
        built_entries
spec_map_from-build_backends_example =
    spec_map_from-build_backends parse parse (sha1_in 6) (sha1_in 7) entries built_entries
      entries_run (sha1_in 6 (endpoint (entry 3)))

-- A datagram of two bytes is an assignment.
abbrev unmarshal_two : List ℕ → Option Assignment
unmarshal_two (b ∷ s ∷ []) = some (record { backend_id = b ∷ []; session_id = s ∷ [] })
unmarshal_two [] = none
unmarshal_two (b ∷ []) = none
unmarshal_two (b ∷ s ∷ x ∷ rest) = none

abbrev some_reads : List Read
some_reads =
    datagram (1 ∷ 2 ∷ [])
    ∷ datagram []
    ∷ timed_out
    ∷ datagram (9 ∷ [])
    ∷ failed false
    ∷ datagram (3 ∷ 4 ∷ [])
    ∷ datagram (5 ∷ 6 ∷ [])
    ∷ terminated
    ∷ datagram (7 ∷ 8 ∷ [])
    ∷ []

-- A channel with room for two drops the third assignment.
recv_loop-one_watcher_example :
    recv_loop unmarshal_two some_reads (watch none (new_watcher_mux 2))
    ≡ some (
        one_watcher unmarshal_two 2
          (record { backend_id = 1 ∷ []; session_id = 2 ∷ [] }
            ∷ record { backend_id = 3 ∷ []; session_id = 4 ∷ [] }
            ∷ [])
          true)
recv_loop-one_watcher_example = recv_loop-one_watcher unmarshal_two 2 some_reads
