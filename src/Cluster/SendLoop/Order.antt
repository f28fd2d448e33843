-- ===== src/Cluster/SendLoop/Order.antt =====
-- The order of the messages on their way from the sources through the merged channel.
use mathlib.Core.Path.{subst}
use udplb.Base.{then_some, ℕ, ◌≡◌, ◌≢◌, refl, false, some, List, [], ◌∷◌, ◌++◌, get_elem?}
use udplb.Cluster.{ClusterMux}
use udplb.Cluster.SendLoop.Placed.{Placed, Placed-prefix, Placed-all, new_sources_at}
use udplb.Cluster.SendLoop.Trace.{sent_on, received_from}
use udplb.Cluster.SendLoop.Steps.{Orders, step-Orders}
use udplb.Cluster.SendLoop.{Source, looping, SendLoop, Event, distinct, start_send_loop, step}
use udplb.Cluster.SendLoop.Stays.{all_returned_at}

-- The loops that the steps of a list, the latest first, lead to from the start.
pub data Reach {C : Type 0} (cm : ClusterMux C) : List (Event C) → SendLoop C → Type 0 where
  started : {s : SendLoop C} → start_send_loop cm ≡ some s → Reach cm [] s
  stepped :
      {es : List (Event C)} {s s' : SendLoop C} (e : Event C)
      → Reach cm es s
      → step e s ≡ some s'
      → Reach cm (e ∷ es) s'

module _ {C : Type 0} where
  Reach-Orders :
      {cm : ClusterMux C} {es : List (Event C)} {s : SendLoop C} → Reach cm es s → Orders es s
  Reach-Orders {cm} (started {s} e) =
      let (_, e') = then_some (distinct cm.send_sources) _ s e in
      subst (Orders []) e' (record {
        placed = λ i src g. new_sources_at cm.send_sources i src false g;
        left = λ over off. absurd (over refl);
      })
  Reach-Orders (stepped {es} {s} {s'} e r a) = step-Orders es s s' e (Reach-Orders r) a

  -- If the sources are distinct channels, and however the senders, the goroutines, the loop and `Close`
  -- interleave: what the loop received from a source is the first part of what was sent on it, in order
  -- and each message once; and if the loop has left without being told to terminate, it is all of that.
  pub Reach-InOrder :
      {cm : ClusterMux C} {es : List (Event C)} {s : SendLoop C}
      → Reach cm es s
      → (i : ℕ) (src : Source) → get_elem? s.sources i ≡ some src
      → ((rest : List (List ℕ)) × (received_from i s.delivered ++ rest ≡ sent_on i es))
        × (s.stage ≢ looping
            → s.terminate_closed ≡ false
            → received_from i s.delivered ≡ sent_on i es)
  Reach-InOrder {es = es} {s} r i src g =
      let h = Reach-Orders r in
      let p = h.placed i src g in
      (
        Placed-prefix (sent_on i es) (received_from i s.delivered) s.terminate_closed src src.reader
            p,
        λ over off.
            Placed-all (sent_on i es) (received_from i s.delivered) src src.reader
              (subst (λ t. Placed t (sent_on i es) (received_from i s.delivered) src src.reader) off
                p)
              (all_returned_at s.sources i src (h.left over off) g),
      )
