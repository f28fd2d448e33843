-- ===== src/Lib.antt =====
-- udplb: a UDP load balancer. Each node keeps the list of backends, a lookup table from hashed packets
-- to backends and a map from sessions to backends, and hands them to an eBPF program. This library
-- models the Go code that computes these objects and the data structures it stands on.
--
-- The parts, and the files that model them:
-- - Types (internal/types/types.go, interfaces.go): states, backends, assignments, and `NewBackend`
--   with the coordinates it takes from a UUID.
-- - Rlt (internal/adapter/rlt/rlt.go): the lookup tables. Rlt.Reverse is
--   `ReverseCoordinatesLookupTable`, the one that the controller uses; Rlt.Simple and Rlt.NaiveFib are
--   `SimpleLookupTable` and `NaiveFibLookupTable`, Rlt.Robust is `RobustSimpleLookupTable` and
--   `RobustFibLookupTable`.
-- - Controller (internal/controller/controller.go): the configured backends, their health and the
--   session map. `assignment_event` and `health_event` are one event of `assignmentLoop` and of
--   `healthLoop`, `recompute_and_apply` is `recomputeAndApply`, and `Objects` is what it hands to
--   `SetObjects` of the BPF manager.
-- - Config (internal/controller/controller.go, internal/adapter/bpf/manager.go): the entries of the
--   configuration, `buildBackends`, and `transformBackendList`, which makes of a backend what the kernel
--   program reads. Net (internal/util/net.go) has the address, hardware address and port checks.
-- - RingBuffer (internal/util/ringbuffer.go): the proposal buffer of the write-ahead log, with its
--   token channel. `Next` is two steps, since a writer may run between them.
-- - LinkedList (internal/util/linkedlist.go): the entries of the write-ahead log, a heap of nodes.
-- - Wal (internal/adapter/wal/wal.go, internal/types/wal.go, `Propose` of
--   internal/controller/dvds/dvds.go): proposals go through a ring buffer and a reader goroutine to the
--   event loop, which appends them to a linked list and dispatches them.
-- - StateMachine (internal/adapter/statemachine): map, set, array and counter, which the replicated
--   data structures execute commands on.
-- - WatcherMux (internal/util/watchermux.go): the channels by which messages reach their watchers, with
--   the choice of the runtime among ready cases of a select as an argument.
-- - WorkerPool (internal/util/workerpool.go): workers that run the jobs of a channel, and drain it when
--   they are told to terminate.
-- - Dvds (internal/controller/dvds/dvds.go): the event loop that applies what two logs dispatch to a state
--   machine, known by its interface.
-- - Cluster (internal/adapter/cluster/mux.go, topology.go, typed.go): whom a message is sent to, over
--   cached connections, and values that are encoded and decoded on the way. Cluster.SendLoop is
--   `sendLoop` with its goroutines and its senders, as interleaved steps.
-- - Health (internal/adapter/monitor/backend_state.go): the probes, and their way through `healthLoop` of
--   the controller.
-- - Monitor (internal/adapter/monitor/backend_spec_map.go, remote_assignment.go): the configured
--   backends as a map of specs, and the loop that receives the assignments of other nodes.
-- - Traffic (cmd/udplb-traffic-gen/main.go, cmd/udplb-echo-backend/main.go): the packets, and the two
--   programs that send and echo them.
-- - Bpf (internal/adapter/bpf/manager.go, objects.go): the events of the BPF data structure manager over
--   an interface of the BPF structures, whose package is not part of the repository. Bpf.Calls are its
--   calls, the event loop and its worker, which is a WorkerPool, as interleaved steps.
-- - Startup (internal/controller/controller.go, internal/adapter/bpf/udplb_user.go): `Run` and `Close` of
--   the controller over its parts.
-- - Lifecycle: `Run` and `Close` of the write-ahead log (internal/adapter/wal), the DVDS
--   (internal/controller/dvds), the monitors (internal/adapter/monitor), the BPF manager
--   (internal/adapter/bpf/manager.go) and the clusters (internal/adapter/cluster).
-- Base holds the shared helpers: Boolean tests, lists measured by native numbers, and Go maps as
-- association lists. A child module X/Y proves what its own comment says about X; X/Tests has the runs
-- and the examples.
--
-- How the code is modelled. A method that works under a mutex is one step, a function from state to
-- state. A panic, an endless wait and a loop that does not end are the value `none`, or a constructor
-- of `Outcome` in Lifecycle. uint32 and int64 values are numbers with `% 2 ^ 32` and `% 2 ^ 64` written
-- out; an int64 is its 64 bits. A pointer that may be nil is an option, a node of the linked list the
-- index of its cell. A Go map is an association list with an entry for each key at most (`IsMap`); where
-- the code ranges over a map and the order matters, the order is a parameter.
--
-- Bounds and fuel. The loop of `ReverseCoordinatesLookupTable` over the primes has fuel m + 1: the next
-- prime below a number is smaller, so that at most m rounds run. A search of
-- `NaiveFibLookupTable` for the next entry has fuel 2, since the jump back starts at entry 0 and is not
-- taken again unless the only backend is banned. A search of the robust tables for an empty slot has fuel
-- 2 m + 2, since it passes every entry once it has started again at 0, and the rounds of
-- `RobustSimpleLookupTable` have fuel m + 2, since a round lowers a share or bans every backend. `walk`
-- over the linked list needs as many steps as the list has nodes. All other loops are structural. Lengths are assumed below 2^32 or 2^64
-- where a theorem says so; the length counter of the linked list, a uint, is not wrapped.
--
-- Not modelled: the goroutines that only move values between channels, sockets and files, the network
-- protocols, the loading of the BPF program, the kernel program in C, the generated code, and the start-up of the
-- commands. JSON, the YAML reader, net, uuid and ebpfstruct are not part of the repository: what is used of them is a parameter,
-- with what the code relies on as a hypothesis.
pub mod Base
pub mod Bpf
pub mod Cluster
pub mod Config
pub mod Controller
pub mod Dvds
pub mod Health
pub mod Lifecycle
pub mod LinkedList
pub mod Monitor
pub mod Net
pub mod RingBuffer
pub mod Rlt
pub mod Startup
pub mod StateMachine
pub mod Traffic
pub mod Types
pub mod Wal
pub mod WatcherMux
pub mod WorkerPool
