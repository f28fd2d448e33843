-- ===== src/Cluster/Delivery.antt =====
-- internal/adapter/cluster/mux.go: who receives a message.
use udplb.Base.{
  ℕ, Option, none, List, ◌≡◌, refl, ap, ◌∙◌, ◌==◌, bytes_comparable, if◌then◌else◌, lookup, IsMap,
}
use udplb.Types.{Uuid}
use udplb.Cluster.{ClusterMux, next_peers, send_message}
use udplb.Cluster.Peers.{
  Keyed, find_node-next_peers, next_peers-Unique, reached, or_else, send_over-Served,
}

module _ {C : Type 0} (dial : List ℕ → Option C) where
  -- The connection that a message to `id` goes over: none to the node itself and to an id that is no
  -- node, the cached one if there is one, and else what dialling the node's address gives.
  abbrev pub route : ClusterMux C → Uuid → Option C
  route cm id =
      reached dial (if id == cm.node_id then none else lookup id cm.nodes) (lookup id cm.conns)

  -- If the nodes stand under their own ids, each once, a message is written once to each other node for
  -- which there is a connection or dialling succeeds, over that connection, and to no one else, whatever
  -- fails for other nodes; every connection is kept, and each one dialled is added to the cache.
  pub send_message-route :
      (cm : ClusterMux C)
      → Keyed cm.nodes
      → IsMap cm.nodes
      → let (cm', writes) = send_message dial cm in
        ((id : Uuid) → lookup id writes ≡ route cm id)
        × IsMap writes
        × ((id : Uuid) → lookup id cm'.conns ≡ or_else (lookup id cm.conns) (route cm id))
        × (cm'.nodes ≡ cm.nodes)
  unfolding send_message
  send_message-route cm k m =
      let served =
        send_over-Served dial (next_peers cm.node_id cm.nodes) cm.conns
          (next_peers-Unique cm.node_id cm.nodes k m) in
      let found = λ (id : Uuid). find_node-next_peers cm.node_id id cm.nodes k m in
      (
        λ id. served.writes id ∙ ap (λ n. reached dial n (lookup id cm.conns)) (found id),
        served.once,
        λ id.
            served.conns_kept id
            ∙ ap (λ n. or_else (lookup id cm.conns) (reached dial n (lookup id cm.conns)))
                (found id),
        refl,
      )
