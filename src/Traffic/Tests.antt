-- ===== src/Traffic/Tests.antt =====
-- Runs of the generator and the echo backend, and the theorem about them at concrete ids.
use udplb.Base.{
  ℕ, zero, suc, ◌≡◌, refl, true, false, none, some, List, [], ◌∷◌, length, get_elem?, replicate,
  arith, take,
}
use udplb.Types.{Uuid, uint32_le}
use udplb.Traffic.{
  build_packet, parse_packet, new_generator, new_report, send_traffic, new_stats, tick,
}
use udplb.Traffic.Counts.{Delivered, send_traffic-Delivered}

abbrev two_sessions : List Uuid
two_sessions = replicate 16 1 ∷ replicate 16 2 ∷ []

packet_run :
    build_packet (replicate 16 1) 2
    ≡ 68 ∷ 73 ∷ 85 ∷ 85 ∷ 1 ∷ 1 ∷ 1 ∷ 1 ∷ 1 ∷ 1 ∷ 1 ∷ 1 ∷ 1 ∷ 1 ∷ 1 ∷ 1 ∷ 1 ∷ 1 ∷ 1 ∷ 1 ∷ 0 ∷ 0 ∷ []
unfolding build_packet
packet_run = refl

-- A wrong prefix is refused, and so is a packet without room for an id.
refused_run : parse_packet (replicate 20 68) ≡ none
unfolding parse_packet uint32_le
refused_run = refl

short_run : parse_packet (take 19 (build_packet (replicate 16 1) 0)) ≡ none
unfolding parse_packet build_packet
short_run = refl

-- The failed write counts nothing, and the next tick is for the next session.
traffic_run :
    send_traffic two_sessions 0 (true ∷ false ∷ true ∷ []) (new_generator two_sessions)
    ≡ some (
      build_packet (replicate 16 1) 0 ∷ build_packet (replicate 16 1) 0 ∷ [],
      record { idx = 3; total_sent = 2; sessions = (replicate 16 1, 2) ∷ (replicate 16 2, 0) ∷ [] },
    )
unfolding send_traffic new_generator new_report tick
traffic_run = refl

sixteen : (i : ℕ) (sid : Uuid) → get_elem? two_sessions i ≡ some sid → length sid ≡ 16
sixteen zero sid e = ground arith
sixteen (suc zero) sid e = ground arith
sixteen (suc (suc i)) sid e = ground arith

send_traffic-Delivered_example :
    Delivered two_sessions 8
      (10 ∷ [])
      (true ∷ false ∷ true ∷ [])
      (new_generator two_sessions)
      new_stats
send_traffic-Delivered_example =
    send_traffic-Delivered two_sessions 8 (10 ∷ []) sixteen (omega arith) (omega arith)
      (true ∷ false ∷ true ∷ [])
