-- ===== src/Cluster/SendLoop/Writes.antt =====
-- Whom the messages of the loop are written to, and what becomes of the connections.
use mathlib.Core.Path.{subst}
use udplb.Base.{
  ℕ, ◌≡◌, refl, sym, ap, ◌∙◌, ◌||◌, Option, none, some, List, [], ◌∷◌, lookup, IsMap, ◌==◌,
  bytes_comparable, get_elem?, if◌then◌else◌, arith, some_same, not_some, else_some, then_some, All,
}
use udplb.Types.{Uuid}
use udplb.Cluster.{ClusterMux, Node, send_message, close_conns}
use udplb.Cluster.Peers.{Keyed, reached}
use udplb.Cluster.Delivery.{route, send_message-route}
use udplb.Cluster.SendLoop.{
  distinct, Reader, selecting, reader_returned, holding, Source, Stage, looping, terminating,
  loop_returned, Delivery, SendLoop, Event, sends, closes, receives, stops, merges, leaves,
  finishes, terminates, all_returned, send_to, close_source, receive_source, stop_source,
  put_source, at_source, merge_data, merge_from, leave_loop, finish_loop, step,
}
use udplb.Cluster.SendLoop.Order.{Reach, started, stepped}
use udplb.Cluster.SendLoop.Log.{
  Written, Closed, Kept, reached_over, cached_over, all_closed, still_cached,
}

module _ {C : Type 0} where
  record Logged (cm : ClusterMux C) (s : SendLoop C) : Type 0 where
    nodes : s.mux.nodes ≡ cm.nodes
    self : s.mux.node_id ≡ cm.node_id
    written : All (Written cm.node_id cm.nodes) s.delivered
    kept : All (Kept s.mux.conns s.closed_conns s.stage) s.delivered
    forgotten : s.stage ≡ loop_returned → s.mux.conns ≡ []

  -- The steps on the sources leave the deliveries and the connections.
  at_source-Logged :
      (cm : ClusterMux C) (s s' : SendLoop C) (f : Source → Option Source) (i : ℕ)
      (o : Option Source)
      → at_source f i o s ≡ some s'
      → Logged cm s
      → Logged cm s'
  at_source-Logged cm s s' f i none e h = absurd (not_some s' e)
  at_source-Logged cm s s' f i (some src) e h = put_source-Logged (f src) e
    where
      put_source-Logged : (o : Option Source) → put_source i o s ≡ some s' → Logged cm s'
      put_source-Logged none e = absurd (not_some s' e)
      put_source-Logged (some src') e = subst (Logged cm) (some_same e) (record {
        nodes = h.nodes;
        self = h.self;
        written = h.written;
        kept = h.kept;
        forgotten = h.forgotten;
      })

  leave_loop-Logged :
      (cm : ClusterMux C) (s s' : SendLoop C) (stage : Stage)
      → s.stage ≡ stage
      → leave_loop stage s ≡ some s'
      → Logged cm s
      → Logged cm s'
  leave_loop-Logged cm s s' looping l e h =
      let (b, e') = then_some (s.terminate_closed || all_returned s.sources) _ s' e in
      subst (Logged cm) e' (record {
        nodes = h.nodes;
        self = h.self;
        written = h.written;
        kept = subst (λ g. All (Kept s.mux.conns s.closed_conns g) s.delivered) l h.kept;
        forgotten = λ p. absurd (ground arith);
      })
  leave_loop-Logged cm s s' terminating l e h = absurd (not_some s' e)
  leave_loop-Logged cm s s' loop_returned l e h = absurd (not_some s' e)

  finish_loop-Logged :
      (cm : ClusterMux C) (s s' : SendLoop C) (stage : Stage)
      → s.stage ≡ stage
      → finish_loop stage s ≡ some s'
      → Logged cm s
      → Logged cm s'
  unfolding close_conns
  finish_loop-Logged cm s s' looping l e h = absurd (not_some s' e)
  finish_loop-Logged cm s s' terminating l e h = subst (Logged cm) (some_same e) (record {
    nodes = h.nodes;
    self = h.self;
    written = h.written;
    kept =
        all_closed s.mux.conns s.closed_conns s.delivered
          (subst (λ g. All (Kept s.mux.conns s.closed_conns g) s.delivered) l h.kept);
    forgotten = λ p. refl;
  })
  finish_loop-Logged cm s s' loop_returned l e h = absurd (not_some s' e)

  module _ (cm : ClusterMux C) (keyed : Keyed cm.nodes) (once : IsMap cm.nodes) where
    merge_data-Logged :
        (s s' : SendLoop C) (i : ℕ) (dial : List ℕ → Option C) (src : Source) (reader : Reader)
        → s.stage ≡ looping
        → merge_data dial i src reader s ≡ some s'
        → Logged cm s
        → Logged cm s'
    unfolding send_message
    merge_data-Logged s s' i dial src selecting l e h = absurd (not_some s' e)
    merge_data-Logged s s' i dial src reader_returned l e h = absurd (not_some s' e)
    merge_data-Logged s s' i dial src (holding msg) l e h =
        let (to, each_once, conns_now, _) =
          send_message-route dial s.mux (subst Keyed (sym h.nodes) keyed)
            (subst IsMap (sym h.nodes) once) in
        let (cm', writes) = send_message dial s.mux in
        let target : Uuid → Option Node =
          λ id. if id == s.mux.node_id then none else lookup id s.mux.nodes in
        let d : Delivery C = record { from = i; message = msg; writes = writes } in
        let same : cm'.nodes ≡ cm.nodes = h.nodes in
        subst (Logged cm) (some_same e) (record {
          nodes = same;
          self = h.self;
          written = (
            record {
              once = each_once;
              peers = λ id p.
                  let nobody : target id ≡ none = rw (h.self, h.nodes) p in
                  to id ∙ ap (λ n. reached dial n (lookup id s.mux.conns)) nobody;
            },
            h.written,
          );
          kept =
              subst (λ g. All (Kept cm'.conns s.closed_conns g) (d ∷ s.delivered)) (sym l)
                (
                  λ id conn w.
                      conns_now id
                      ∙ reached_over dial (target id) (lookup id s.mux.conns) conn
                          (sym (to id) ∙ w),
                  still_cached s.mux.conns cm'.conns s.closed_conns s.delivered
                      (λ id conn w.
                        conns_now id
                        ∙ cached_over (lookup id s.mux.conns) (route dial s.mux id) conn w)
                      (subst (λ g. All (Kept s.mux.conns s.closed_conns g) s.delivered) l h.kept),
                );
          forgotten = λ p. let q = sym l ∙ p in absurd (ground arith);
        })

    merge_from-Logged :
        (s s' : SendLoop C) (i : ℕ) (dial : List ℕ → Option C) (stage : Stage) (o : Option Source)
        → s.stage ≡ stage
        → merge_from dial i stage o s ≡ some s'
        → Logged cm s
        → Logged cm s'
    merge_from-Logged s s' i dial looping none l e h = absurd (not_some s' e)
    merge_from-Logged s s' i dial looping (some src) l e h =
        merge_data-Logged s s' i dial src src.reader l e h
    merge_from-Logged s s' i dial terminating o l e h = absurd (not_some s' e)
    merge_from-Logged s s' i dial loop_returned o l e h = absurd (not_some s' e)

    step-Logged :
        (e : Event C) (s s' : SendLoop C) → step e s ≡ some s' → Logged cm s → Logged cm s'
    unfolding step
    step-Logged (sends i msg) s s' e h =
        at_source-Logged cm s s' (send_to msg) i (get_elem? s.sources i) e h
    step-Logged (closes i) s s' e h =
        at_source-Logged cm s s' close_source i (get_elem? s.sources i) e h
    step-Logged (receives i) s s' e h =
        at_source-Logged cm s s' (λ src. receive_source src.reader src) i (get_elem? s.sources i) e
          h
    step-Logged (stops i) s s' e h =
        at_source-Logged cm s s' (λ src. stop_source s.terminate_closed src.reader src) i
          (get_elem? s.sources i) e h
    step-Logged (merges i dial) s s' e h =
        merge_from-Logged s s' i dial s.stage (get_elem? s.sources i) refl e h
    step-Logged leaves s s' e h = leave_loop-Logged cm s s' s.stage refl e h
    step-Logged finishes s s' e h = finish_loop-Logged cm s s' s.stage refl e h
    step-Logged terminates s s' e h =
        let (off, e') = else_some s.terminate_closed _ s' e in
        subst (Logged cm) (some_same e') (record {
          nodes = h.nodes;
          self = h.self;
          written = h.written;
          kept = h.kept;
          forgotten = h.forgotten;
        })

    Reach-Logged : {es : List (Event C)} {s : SendLoop C} → Reach cm es s → Logged cm s
    Reach-Logged (started {s} e) =
        let (_, e') = then_some (distinct cm.send_sources) _ s e in
        subst (Logged cm) e' (record {
          nodes = refl;
          self = refl;
          written = tt;
          kept = tt;
          forgotten = λ p. absurd (ground arith);
        })
    Reach-Logged (stepped {es} {s} {s'} e r a) = step-Logged e s s' a (Reach-Logged r)

    -- If the nodes stand under their own ids, each once, and the sources are distinct channels: however
    -- the steps interleave, and whatever dialling gives, every message that the loop received is written
    -- once to a node at most, and never to the node itself or to an id that is no node; and once the loop
    -- has returned, no connection is left in the cache and every connection that was written over is
    -- among those closed.
    pub Reach-Written :
        {es : List (Event C)} {s : SendLoop C}
        → Reach cm es s
        → All (Written cm.node_id cm.nodes) s.delivered
          × (s.stage ≡ loop_returned → (s.mux.conns ≡ []) × All (Closed s.closed_conns) s.delivered)
    Reach-Written {s = s} r =
        let h = Reach-Logged r in
        (
          h.written,
          λ over. (
            h.forgotten over,
            subst (λ g. All (Kept s.mux.conns s.closed_conns g) s.delivered) over h.kept,
          ),
        )
