-- ===== src/Traffic.antt =====
-- The packets of udplb, and the programs at both ends: cmd/udplb-traffic-gen/main.go sends them,
-- cmd/udplb-echo-backend/main.go counts and echoes them, and the probe of
-- internal/adapter/monitor/backend_state.go sends one. `none` is a packet that is refused, a write that
-- does not happen, or a panic where the comment says so. Sockets, signals and reports in JSON are left
-- out, and the text of an id, by which the generator counts, is the id. Counters are not wrapped.
pub mod Packets
pub mod Counts
mod Tests
use udplb.Base.{
  ℕ, zero, suc, ◌+◌, ◌/◌, ◌%◌, Bool, true, false, Option, none, some, List, [], ◌∷◌, ◌++◌, ltb,
  nat_beq, if◌then◌else◌, length, get_elem?, take, drop, replicate, Map, lookup, insert,
  bytes_comparable,
}
use udplb.Types.{Uuid, uint32_le}

-- 0x55554944.
abbrev pub packet_prefix : ℕ
packet_prefix = 1431652676

abbrev pub min_packet_size : ℕ
min_packet_size = 20

-- `binary.LittleEndian.PutUint32`.
abbrev pub put_uint32_le : ℕ → List ℕ
put_uint32_le v = v % 256 ∷ v / 256 % 256 ∷ v / 65536 % 256 ∷ v / 16777216 % 256 ∷ []

-- `copy`: the destination afterwards.
abbrev pub copy : List ℕ → List ℕ → List ℕ
copy [] src = []
copy (d ∷ dst) [] = d ∷ dst
copy (d ∷ dst) (s ∷ src) = s ∷ copy dst src

unfoldable pub build_packet : Uuid → ℕ → List ℕ
build_packet session_id payload_size =
    let buf = replicate (4 + 16 + payload_size) 0 in
    put_uint32_le packet_prefix ++ (copy (take 16 (drop 4 buf)) session_id ++ drop 20 buf)

unfoldable pub parse_packet : List ℕ → Option Uuid
parse_packet packet =
    if ltb (length packet) min_packet_size
    then none
    else if nat_beq (uint32_le (take 4 packet)) packet_prefix
    then some (copy (replicate 16 0) (take 16 (drop 4 packet)))
    else none

pub record Stats : Type 0 where
  pub total_received : ℕ
  pub sessions : Map Uuid ℕ
  pub source_ips : Map {0, 0} (List ℕ) Unit

abbrev pub new_stats : Stats
new_stats = record { total_received = 0; sessions = []; source_ips = [] }

-- A missing key reads as 0.
abbrev pub or_zero : Option ℕ → ℕ
or_zero none = 0
or_zero (some n) = n

abbrev pub record_source : Option (List ℕ) → Map {0, 0} (List ℕ) Unit → Map {0, 0} (List ℕ) Unit
record_source none ips = ips
record_source (some ip) ips = insert ip tt ips

-- `Record`, with the text of the source address.
unfoldable pub record_packet : Uuid → Option (List ℕ) → Stats → Stats
record_packet session_id source_addr s = record {
  total_received = s.total_received + 1;
  sessions = insert session_id (or_zero (lookup session_id s.sessions) + 1) s.sessions;
  source_ips = record_source source_addr s.source_ips;
}

abbrev pub echo_to : Option (List ℕ) → List ℕ → Option (List ℕ)
echo_to none packet = none
echo_to (some addr) packet = some packet

abbrev pub serve_parsed : Option Uuid → List ℕ → Option (List ℕ) → Stats → Option (List ℕ) × Stats
serve_parsed none packet remote_addr s = (none, s)
serve_parsed (some sid) packet remote_addr s =
    (echo_to remote_addr packet, record_packet sid remote_addr s)

-- One round of the receive goroutine, on a datagram read into 65535 bytes: what it writes back.
unfoldable pub serve : List ℕ → Option (List ℕ) → Stats → Option (List ℕ) × Stats
unfolding parse_packet record_packet
serve datagram remote_addr s =
    let packet = take 65535 datagram in serve_parsed (parse_packet packet) packet remote_addr s

-- Rounds on datagrams of one sender.
unfoldable pub serve_all : List (List ℕ) → Option (List ℕ) → Stats → List (Option (List ℕ)) × Stats
unfolding serve
serve_all [] remote_addr s = ([], s)
serve_all (datagram ∷ datagrams) remote_addr s =
    let (reply, s1) = serve datagram remote_addr s in
    let (replies, s2) = serve_all datagrams remote_addr s1 in (reply ∷ replies, s2)

-- `idx` and the report of the generator.
pub record Generator : Type 0 where
  pub idx : ℕ
  pub total_sent : ℕ
  pub sessions : Map Uuid ℕ

-- `report.Sessions[sid.String()] = &SessionStats{}` for each session.
unfoldable pub new_report : List Uuid → Map Uuid ℕ → Map Uuid ℕ
new_report [] m = m
new_report (sid ∷ sids) m = new_report sids (insert sid 0 m)

unfoldable pub new_generator : List Uuid → Generator
unfolding new_report
new_generator sids = record { idx = 0; total_sent = 0; sessions = new_report sids [] }

-- A tick for the session `sid` that was sent to `sent` times, with whether the write succeeds: the
-- generator and the packet written. `none` is a panic.
abbrev pub tick_session :
    ℕ → Bool → Uuid → Option ℕ → Generator → Option (Option (List ℕ) × Generator)
tick_session payload_size false sid sent g = some (none, record g { idx = g.idx + 1 })
tick_session payload_size true sid none g = none
tick_session payload_size true sid (some n) g = some (
  some (build_packet sid payload_size),
  record {
    idx = g.idx + 1;
    total_sent = g.total_sent + 1;
    sessions = insert sid (n + 1) g.sessions;
  },
)

unfoldable pub tick : List Uuid → ℕ → Bool → Generator → Option (Option (List ℕ) × Generator)
tick sids payload_size ok g = elim (get_elem? sids (g.idx % length sids)) [
  | none ↦ none
  | some sid ↦ tick_session payload_size ok sid (lookup sid g.sessions) g
]

abbrev pub put_packet : Option (List ℕ) → List (List ℕ) → List (List ℕ)
put_packet none packets = packets
put_packet (some packet) packets = packet ∷ packets

abbrev pub put_tick :
    Option (List ℕ) → Option (List (List ℕ) × Generator) → Option (List (List ℕ) × Generator)
put_tick packet none = none
put_tick packet (some (packets, g)) = some (put_packet packet packets, g)

-- The ticks until the timer or a signal: the packets written, in order.
unfoldable pub send_traffic :
    List Uuid → ℕ → List Bool → Generator → Option (List (List ℕ) × Generator)
unfolding tick
send_traffic sids payload_size [] g = some ([], g)
send_traffic sids payload_size (ok ∷ oks) g = elim (tick sids payload_size ok g) [
  | none ↦ none
  | some (packet, g1) ↦ put_tick packet (send_traffic sids payload_size oks g1)
]
