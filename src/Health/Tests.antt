-- ===== src/Health/Tests.antt =====
-- Runs of the probes, and the theorem about a round at a concrete controller.
use udplb.Base.{
  pos, ℕ, ◌*◌, ◌≡◌, refl, true, Option, none, some, [], ◌∷◌, replicate, Map, get_or,
  bytes_comparable, nat_beq, if◌then◌else◌,
}
use udplb.Types.{Uuid, uint32_le, BackendSpec, Backend, State, available, unavailable}
use udplb.Controller.{Controller}
use udplb.Traffic.{serve, new_stats, parse_packet, record_packet}
use udplb.Health.{Conn, probe_payload}

abbrev backend : ℕ → State → Backend
backend i s = record {
  id = replicate 16 i;
  spec = record {
    ip = 10 ∷ 0 ∷ 0 ∷ i ∷ [];
    port = pos 9000;
    mac_addr = replicate 6 i;
    state = available;
  };
  status = record { state = s };
  coordinates = replicate 4 (i * 16843009);
}

-- The second backend was down; the first one goes down, since only the second one answers.
abbrev before : Controller
before = record {
  backends = backend 1 available ∷ backend 2 unavailable ∷ [];
  lookup_table_size = 7;
  session_map = (replicate 16 9, 0) ∷ [];
}

abbrev echoing : Conn
echoing = record {
  set_deadline = true;
  write_succeeds = λ packet. true;
  read = λ packet. some packet;
}

abbrev silent : Conn
silent = record { set_deadline = true; write_succeeds = λ packet. true; read = λ packet. none }

abbrev dial : BackendSpec → Option Conn
dial spec = some (if nat_beq (get_or spec.ip 3 0) 2 then echoing else silent)

abbrev visited : Map Uuid BackendSpec
visited =
    (replicate 16 1, (backend 1 available).spec) ∷ (replicate 16 2, (backend 2 available).spec) ∷ []

-- The echo backend answers the probe, and counts it for the zero id.
answered_run : serve probe_payload (some (10 ∷ [])) new_stats ≡ (
  some probe_payload,
  record {
    total_received = 1;
    sessions = (replicate 16 0, 1) ∷ [];
    source_ips = (10 ∷ [], tt) ∷ [];
  },
)
unfolding serve parse_packet record_packet uint32_le
answered_run = refl
