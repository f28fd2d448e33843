-- ===== src/Cluster/SendLoop/Tests.antt =====
-- A run of the send loop with two sources, up to its end, and the theorems on it.
use udplb.Base.{
  ℕ, ◌≡◌, ◌≢◌, refl, true, false, Option, none, some, List, [], ◌∷◌, ◌++◌, bytes_comparable, ◌==◌,
  if◌then◌else◌, All,
}
use udplb.Cluster.{ClusterMux}
use udplb.Cluster.SendLoop.{
  selecting, holding, Source, reader_returned, looping, loop_returned, SendLoop, Event, sends,
  closes, receives, merges, leaves, finishes, step,
}
use udplb.Cluster.SendLoop.Trace.{sent_on, received_from}
use udplb.Cluster.SendLoop.Order.{Reach, started, stepped, Reach-InOrder}
use udplb.Cluster.SendLoop.Log.{Written, Closed}
use udplb.Cluster.SendLoop.Ends.{Over, terminate_closed-Over}
use udplb.Cluster.SendLoop.Writes.{Reach-Written}

-- Connections are addresses; node 2 does not answer.
abbrev dial_three : List ℕ → Option (List ℕ)
dial_three addr = if addr == (5 ∷ []) then none else some addr

abbrev with_sources : ClusterMux (List ℕ)
with_sources = record {
  node_id = 1 ∷ [];
  nodes =
      (1 ∷ [], record { id = 1 ∷ []; addr = 4 ∷ [] })
      ∷ (2 ∷ [], record { id = 2 ∷ []; addr = 5 ∷ [] })
      ∷ (3 ∷ [], record { id = 3 ∷ []; addr = 6 ∷ [] })
      ∷ [];
  conns = [];
  send_sources = 0 ∷ 1 ∷ [];
  running = true;
}

-- The latest step first.
abbrev whole_run : List (Event (List ℕ))
whole_run =
    finishes
    ∷ leaves
    ∷ receives 0
    ∷ receives 1
    ∷ closes 1
    ∷ closes 0
    ∷ merges 1 dial_three
    ∷ merges 0 dial_three
    ∷ receives 1
    ∷ receives 0
    ∷ sends 1 (9 ∷ [])
    ∷ sends 0 (8 ∷ [])
    ∷ []

abbrev ended_source : Source
ended_source = record { feed = []; is_closed = true; reader = reader_returned }

abbrev ended_loop : SendLoop (List ℕ)
ended_loop = record {
  mux = record with_sources { conns = [] };
  sources = ended_source ∷ ended_source ∷ [];
  terminate_closed = false;
  stage = loop_returned;
  delivered =
      record { from = 1; message = 9 ∷ []; writes = (3 ∷ [], 6 ∷ []) ∷ [] }
      ∷ record { from = 0; message = 8 ∷ []; writes = (3 ∷ [], 6 ∷ []) ∷ [] }
      ∷ [];
  closed_conns = (6 ∷ []) ∷ [];
}

whole_run-Reach : Reach with_sources whole_run ended_loop
unfolding step
whole_run-Reach =
    let a = stepped (sends 1 (9 ∷ [])) (stepped (sends 0 (8 ∷ [])) (started refl) refl) refl in
    let b = stepped (receives 1) (stepped (receives 0) a refl) refl in
    let c = stepped (merges 1 dial_three) (stepped (merges 0 dial_three) b refl) refl in
    let d = stepped (closes 1) (stepped (closes 0) c refl) refl in
    let e = stepped (receives 0) (stepped (receives 1) d refl) refl in
    stepped finishes (stepped leaves e refl) refl

Reach-InOrder_example :
    ((rest : List (List ℕ)) × (received_from 1 ended_loop.delivered ++ rest ≡ sent_on 1 whole_run))
    × (ended_loop.stage ≢ looping
        → ended_loop.terminate_closed ≡ false
        → received_from 1 ended_loop.delivered ≡ sent_on 1 whole_run)
Reach-InOrder_example = Reach-InOrder whole_run-Reach 1 ended_source refl

Reach-Written_example :
    All (Written with_sources.node_id with_sources.nodes) ended_loop.delivered
    × (ended_loop.stage ≡ loop_returned
        → (ended_loop.mux.conns ≡ []) × All (Closed ended_loop.closed_conns) ended_loop.delivered)
Reach-Written_example =
    Reach-Written with_sources (refl, (refl, (refl, tt))) (refl, (refl, (refl, tt))) whole_run-Reach

-- One goroutine has a message in hand, another waits for one.
abbrev told_loop : SendLoop (List ℕ)
told_loop = record {
  mux = with_sources;
  sources =
      record { feed = (7 ∷ []) ∷ []; is_closed = false; reader = holding (8 ∷ []) }
      ∷ record { feed = []; is_closed = false; reader = selecting }
      ∷ [];
  terminate_closed = true;
  stage = looping;
  delivered = [];
  closed_conns = [];
}

terminate_closed-Over_example : (s2 : SendLoop (List ℕ)) × Over told_loop s2
terminate_closed-Over_example = terminate_closed-Over told_loop refl
