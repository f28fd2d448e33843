-- ===== src/Cluster/Tests.antt =====
-- A small cluster with the theorem on it, and runs of the coding loops.
use udplb.Base.{
  ℕ, true, Option, none, some, List, [], ◌∷◌, ◌≡◌, refl, map, bytes_comparable, lookup, IsMap,
}
use udplb.Types.{Uuid}
use udplb.Cluster.{ClusterMux, send_message, receive_datagram, encode_all, decode_all}
use udplb.Cluster.Peers.{or_else}
use udplb.Cluster.Delivery.{route, send_message-route}

-- Connections are addresses; the empty one does not answer.
abbrev dial : List ℕ → Option (List ℕ)
dial [] = none
dial addr = some addr

abbrev three_nodes : ClusterMux (List ℕ)
three_nodes = record {
  node_id = 1 ∷ [];
  nodes =
      (1 ∷ [], record { id = 1 ∷ []; addr = 4 ∷ [] })
      ∷ (2 ∷ [], record { id = 2 ∷ []; addr = 5 ∷ [] })
      ∷ (3 ∷ [], record { id = 3 ∷ []; addr = 6 ∷ [] })
      ∷ [];
  conns = (3 ∷ [], 7 ∷ []) ∷ [];
  send_sources = [];
  running = true;
}

sent_to : (send_message dial three_nodes).1 ≡ ((2 ∷ [], 5 ∷ []) ∷ (3 ∷ [], 7 ∷ []) ∷ [])
unfolding send_message
sent_to = refl

send_message-route_example :
    let (cm', writes) = send_message dial three_nodes in
    ((id : Uuid) → lookup id writes ≡ route dial three_nodes id)
    × IsMap writes
    × ((id : Uuid)
        → lookup id cm'.conns ≡ or_else (lookup id three_nodes.conns) (route dial three_nodes id))
    × (cm'.nodes ≡ three_nodes.nodes)
send_message-route_example =
    send_message-route dial three_nodes (refl, (refl, (refl, tt))) (refl, (refl, (refl, tt)))

abbrev marshal : ℕ → Option (List ℕ)
marshal n = some (n ∷ [])

abbrev unmarshal : List ℕ → Option ℕ
unmarshal [] = none
unmarshal (n ∷ rest) = some n

coded_run :
    decode_all unmarshal (map receive_datagram (encode_all marshal (5 ∷ 6 ∷ []))) ≡ 5 ∷ 6 ∷ []
unfolding decode_all encode_all receive_datagram
coded_run = refl

-- What does not decode is skipped.
skipped_run : decode_all unmarshal ((5 ∷ []) ∷ [] ∷ (6 ∷ []) ∷ []) ≡ 5 ∷ 6 ∷ []
unfolding decode_all
skipped_run = refl
