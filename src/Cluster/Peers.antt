-- ===== src/Cluster/Peers.antt =====
-- internal/adapter/cluster/topology.go and the loop of mux.go over the peers.
use udplb.Base.{
  ℕ, Option, none, some, List, [], ◌∷◌, ◌≡◌, refl, sym, ap, ◌∙◌, arith, ◌==◌, bytes_comparable,
  if◌then◌else◌, Map, lookup, lookup-insert, IsMap, Bool-cases, inl, inr,
}
use udplb.Types.{Uuid}
use udplb.Cluster.{
  Node, next_peers, dialled, get_or_dial, get_or_dial_conn, record_write, send_over,
}

abbrev pub find_node : Uuid → List Node → Option Node
find_node id [] = none
find_node id (p ∷ ps) = if p.id == id then some p else find_node id ps

-- Each id once.
abbrev pub Unique : List Node → Type 0
Unique [] = Unit
Unique (p ∷ ps) = (find_node p.id ps ≡ none) × Unique ps

-- The nodes map has each node under its own id.
abbrev pub Keyed : Map Uuid Node → Type 0
Keyed [] = Unit
Keyed ((id, node) ∷ nodes) = (node.id ≡ id) × Keyed nodes

pub find_node-next_peers :
    (self id : Uuid) (nodes : Map Uuid Node)
    → Keyed nodes
    → IsMap nodes
    → find_node id (next_peers self nodes) ≡ (if id == self then none else lookup id nodes)
unfolding next_peers
find_node-next_peers self id [] k m = ground arith
find_node-next_peers self id ((j, node) ∷ nodes) k m = ground (
  arith,
  find_node-next_peers self id nodes k.1 m.1,
  m.0,
  bytes_comparable.equal_iff j self,
  bytes_comparable.equal_iff id self,
  bytes_comparable.equal_iff j id,
  bytes_comparable.equal_iff node.id id,
)

pub next_peers-Unique :
    (self : Uuid) (nodes : Map Uuid Node)
    → Keyed nodes
    → IsMap nodes
    → Unique (next_peers self nodes)
unfolding next_peers
next_peers-Unique self [] k m = tt
next_peers-Unique self ((j, node) ∷ nodes) k m = elim (Bool-cases (j == self)) [
  | inl e ↦ rw (e, if◌then◌else◌) (next_peers-Unique self nodes k.1 m.1)
  | inr e ↦
      rw (e, if◌then◌else◌)
        (
          find_node-next_peers self node.id nodes k.1 m.1 ∙ rw (k.0, e, m.0, if◌then◌else◌) refl,
          next_peers-Unique self nodes k.1 m.1,
        )
]

abbrev pub or_else : {C : Type 0} → Option C → Option C → Option C
or_else (some conn) d = some conn
or_else none d = d

module _ {C : Type 0} (dial : List ℕ → Option C) where
  -- The connection that a message to an address goes over.
  abbrev pub conn_for : List ℕ → Option C → Option C
  conn_for addr (some conn) = some conn
  conn_for addr none = dial addr

  cached_lem :
      (p : Node) (id : Uuid) (o : Option C) (conns : Map Uuid C)
      → lookup p.id conns ≡ o
      → lookup id conns ≡ (if p.id == id then o else lookup id conns)
  cached_lem p id o conns e = elim (Bool-cases (p.id == id)) [
    | inl t ↦
        rw (t, if◌then◌else◌)
          (ap (λ k. lookup k conns) (sym ((bytes_comparable.equal_iff p.id id).0 t)) ∙ e)
    | inr f ↦ rw (f, if◌then◌else◌) refl
  ]

  dialled_lem :
      (p : Node) (id : Uuid) (d : Option C) (conns : Map Uuid C)
      → lookup p.id conns ≡ none
      → ((dialled dial p d conns).0 ≡ d)
        × (lookup id ((dialled dial p d conns).1) ≡ (if p.id == id then d else lookup id conns))
  dialled_lem p id none conns e = (refl, cached_lem p id none conns e)
  dialled_lem p id (some conn) conns e = (refl, lookup-insert p.id id conn conns)

  get_or_dial_lem :
      (p : Node) (id : Uuid) (o : Option C) (conns : Map Uuid C)
      → lookup p.id conns ≡ o
      → ((get_or_dial dial p o conns).0 ≡ conn_for p.addr o)
        × (lookup id ((get_or_dial dial p o conns).1)
            ≡ (if p.id == id then conn_for p.addr o else lookup id conns))
  get_or_dial_lem p id (some conn) conns e = (refl, cached_lem p id (some conn) conns e)
  get_or_dial_lem p id none conns e = dialled_lem p id (dial p.addr) conns e

  -- Over which connection a peer of the list is reached, if at all.
  abbrev pub reached : Option Node → Option C → Option C
  reached none cached = none
  reached (some p) cached = conn_for p.addr cached

  record_write-lookup :
      (id j : Uuid) (o : Option C) (ws : Map Uuid C)
      → lookup j ws ≡ none
      → lookup id (record_write j o ws) ≡ (if j == id then o else lookup id ws)
  record_write-lookup id j none ws e = elim (Bool-cases (j == id)) [
    | inl t ↦
        rw (t, if◌then◌else◌)
          (ap (λ k. lookup k ws) (sym ((bytes_comparable.equal_iff j id).0 t)) ∙ e)
    | inr f ↦ rw (f, if◌then◌else◌) refl
  ]
  record_write-lookup id j (some conn) ws e = refl

  record_write-IsMap :
      (j : Uuid) (o : Option C) (ws : Map Uuid C)
      → lookup j ws ≡ none
      → IsMap ws
      → IsMap (record_write j o ws)
  record_write-IsMap j none ws e h = h
  record_write-IsMap j (some conn) ws e h = (e, h)

  -- The peers of a list with distinct ids are each written to once, over the connection they have or
  -- the one that dialling gives, and no other node is; a connection that was dialled is kept.
  pub record Served (ps : List Node) (conns : Map Uuid C) (r : Map Uuid C × Map Uuid C)
      : Type 0 where
    pub writes : (id : Uuid) → lookup id r.1 ≡ reached (find_node id ps) (lookup id conns)
    pub once : IsMap r.1
    pub conns_kept :
        (id : Uuid)
        → lookup id r.0 ≡ or_else (lookup id conns) (reached (find_node id ps) (lookup id conns))

  or_else-none : (o : Option C) → o ≡ or_else o none
  or_else-none none = refl
  or_else-none (some conn) = refl

  or_else-conn_for :
      (addr : List ℕ) (o : Option C) → or_else (conn_for addr o) none ≡ or_else o (conn_for addr o)
  or_else-conn_for addr (some conn) = refl
  or_else-conn_for addr none = sym (or_else-none (dial addr))

  module _ (p : Node) (ps : List Node) (conns : Map Uuid C) (r : Map Uuid C × Map Uuid C)
      (u : Unique (p ∷ ps)) (rest : Served ps ((get_or_dial_conn dial p conns).1) r) where
    conn_now : (get_or_dial_conn dial p conns).0 ≡ conn_for p.addr (lookup p.id conns)
    unfolding get_or_dial_conn
    conn_now = (get_or_dial_lem p p.id (lookup p.id conns) conns refl).0

    conns_now :
        (id : Uuid)
        → lookup id ((get_or_dial_conn dial p conns).1)
          ≡ (if p.id == id then conn_for p.addr (lookup p.id conns) else lookup id conns)
    unfolding get_or_dial_conn
    conns_now id = (get_or_dial_lem p id (lookup p.id conns) conns refl).1

    unwritten : lookup p.id r.1 ≡ none
    unwritten =
        rest.writes p.id ∙ ap (λ n. reached n (lookup p.id ((get_or_dial_conn dial p conns).1))) u.0

    peer_writes :
        (id : Uuid)
        → lookup id (record_write p.id ((get_or_dial_conn dial p conns).0) r.1)
          ≡ reached (find_node id (p ∷ ps)) (lookup id conns)
    peer_writes id =
        record_write-lookup id p.id ((get_or_dial_conn dial p conns).0) r.1 unwritten
        ∙ elim (Bool-cases (p.id == id)) [
          | inl t ↦
              rw (t, if◌then◌else◌)
                (conn_now
                  ∙ ap (λ k. conn_for p.addr (lookup k conns))
                      ((bytes_comparable.equal_iff p.id id).0 t))
          | inr f ↦
              rw (f, if◌then◌else◌)
                (rest.writes id
                  ∙ ap (reached (find_node id ps)) (conns_now id ∙ rw (f, if◌then◌else◌) refl))
        ]

    peer_conns :
        (id : Uuid)
        → lookup id r.0
          ≡ or_else (lookup id conns) (reached (find_node id (p ∷ ps)) (lookup id conns))
    peer_conns id = rest.conns_kept id ∙ elim (Bool-cases (p.id == id)) [
      | inl t ↦
          let e = (bytes_comparable.equal_iff p.id id).0 t in
          rw (conns_now id, t, ap (λ k. find_node k ps) (sym e) ∙ u.0, if◌then◌else◌)
            (or_else-conn_for p.addr (lookup p.id conns)
              ∙ ap (λ k. or_else (lookup k conns) (conn_for p.addr (lookup k conns))) e)
      | inr f ↦ rw (conns_now id, f, if◌then◌else◌) refl
    ]

  pub send_over-Served :
      (ps : List Node) (conns : Map Uuid C) → Unique ps → Served ps conns (send_over dial ps conns)
  unfolding send_over
  send_over-Served [] conns u = record {
    writes = λ id. refl;
    once = tt;
    conns_kept = λ id. or_else-none (lookup id conns);
  }
  send_over-Served (p ∷ ps) conns u =
      let conns1 = (get_or_dial_conn dial p conns).1 in
      let rest = send_over-Served ps conns1 u.1 in
      record {
        writes = peer_writes p ps conns (send_over dial ps conns1) u rest;
        once =
            record_write-IsMap p.id ((get_or_dial_conn dial p conns).0)
              ((send_over dial ps conns1).1)
              (unwritten p ps conns (send_over dial ps conns1) u rest) rest.once;
        conns_kept = peer_conns p ps conns (send_over dial ps conns1) u rest;
      }
