-- ===== src/Cluster.antt =====
-- internal/adapter/cluster: messages between the nodes. mux.go and topology.go send bytes to the other
-- nodes over cached connections, and typed.go encodes and decodes values. A connection `C`, the dialling
-- of an address and encoding/json are parameters; an address is its text. The goroutines that merge the
-- sources give the loop one message at a time, and an error that is only logged has no effect here.
pub mod Peers
pub mod Delivery
pub mod SendLoop
mod Tests
use udplb.Base.{
  ℕ, Bool, true, false, Option, none, some, List, [], ◌∷◌, ◌++◌, ◌==◌, bytes_comparable,
  if◌then◌else◌, take, Map, lookup, insert, ◌⊎◌, inl, inr,
}
use udplb.Types.{Uuid}
use udplb.Lifecycle.{LifecycleError, already_running}

pub record Node : Type 0 where
  pub id : Uuid
  pub addr : List ℕ

-- The part of `clusterMux` that its messages depend on; a source is known by a number.
pub record ClusterMux (C : Type 0) : Type 0 where
  pub node_id : Uuid
  pub nodes : Map Uuid Node
  pub conns : Map Uuid C
  pub send_sources : List ℕ
  pub running : Bool

abbrev pub new_mux : {C : Type 0} → Uuid → ClusterMux C
new_mux node_id = record {
  node_id = node_id;
  nodes = [];
  conns = [];
  send_sources = [];
  running = false;
}

-- `Send` registers a source, until the mux runs.
unfoldable pub send_source : {C : Type 0} → ℕ → ClusterMux C → Option LifecycleError × ClusterMux C
send_source ch cm =
    if cm.running
    then (some already_running, cm)
    else (none, record cm { send_sources = cm.send_sources ++ (ch ∷ []) })

-- `ListNodes`.
abbrev pub list_nodes : Map Uuid Node → List Uuid
list_nodes [] = []
list_nodes ((id, node) ∷ nodes) = id ∷ list_nodes nodes

-- `NextPeers` of the fully connected topology.
unfoldable pub next_peers : Uuid → Map Uuid Node → List Node
next_peers self [] = []
next_peers self ((id, node) ∷ nodes) =
    let rest = next_peers self nodes in if id == self then rest else node ∷ rest

-- The write, if there is a connection: the peer and the connection written to.
abbrev pub record_write : {C : Type 0} → Uuid → Option C → Map Uuid C → Map Uuid C
record_write id none writes = writes
record_write id (some conn) writes = (id, conn) ∷ writes

module _ {C : Type 0} (dial : List ℕ → Option C) where
  -- `getOrDialConn` without a cached connection.
  abbrev pub dialled : Node → Option C → Map Uuid C → Option C × Map Uuid C
  dialled peer none conns = (none, conns)
  dialled peer (some conn) conns = (some conn, insert peer.id conn conns)

  abbrev pub get_or_dial : Node → Option C → Map Uuid C → Option C × Map Uuid C
  get_or_dial peer (some conn) conns = (some conn, conns)
  get_or_dial peer none conns = dialled peer (dial peer.addr) conns

  unfoldable pub get_or_dial_conn : Node → Map Uuid C → Option C × Map Uuid C
  get_or_dial_conn peer conns = get_or_dial peer (lookup peer.id conns) conns

  -- The loop of `sendLoop` over the peers: the connections, and the writes in order.
  unfoldable pub send_over : List Node → Map Uuid C → Map Uuid C × Map Uuid C
  unfolding get_or_dial_conn
  send_over [] conns = (conns, [])
  send_over (peer ∷ peers) conns =
      let (conn, conns1) = get_or_dial_conn peer conns in
      let (conns2, writes) = send_over peers conns1 in (conns2, record_write peer.id conn writes)

  -- One message of `sendLoop`: the mux, and whom the message is written to.
  unfoldable pub send_message : ClusterMux C → ClusterMux C × Map Uuid C
  unfolding send_over next_peers
  send_message cm =
      let (conns, writes) = send_over (next_peers cm.node_id cm.nodes) cm.conns in
      (record cm { conns = conns }, writes)

abbrev pub conns_of : {C : Type 0} → Map Uuid C → List C
conns_of [] = []
conns_of ((id, conn) ∷ conns) = conn ∷ conns_of conns

-- The end of `sendLoop`: the connections closed, and the mux without them.
unfoldable pub close_conns : {C : Type 0} → ClusterMux C → List C × ClusterMux C
close_conns cm = (conns_of cm.conns, record cm { conns = [] })

abbrev pub recv_buf_size : ℕ
recv_buf_size = 65536

-- One datagram of `recvLoop`, as it is dispatched: what fits the buffer.
unfoldable pub receive_datagram : List ℕ → List ℕ
receive_datagram datagram = take recv_buf_size datagram

module _ {ℓ} {T : Type ℓ} where
  -- The goroutine of `typedCluster.Send`: the bytes that go to the raw cluster.
  unfoldable pub encode_all : (T → Option (List ℕ)) → List T → List (List ℕ)
  encode_all marshal [] = []
  encode_all marshal (val ∷ vals) = elim (marshal val) [
    | none ↦ encode_all marshal vals
    | some buf ↦ buf ∷ encode_all marshal vals
  ]

  -- `decodeLoop`: the values dispatched.
  unfoldable pub decode_all : (List ℕ → Option T) → List (List ℕ) → List T
  decode_all unmarshal [] = []
  decode_all unmarshal (raw ∷ raws) = elim (unmarshal raw) [
    | none ↦ decode_all unmarshal raws
    | some decoded ↦ decoded ∷ decode_all unmarshal raws
  ]
