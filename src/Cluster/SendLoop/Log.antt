-- ===== src/Cluster/SendLoop/Log.antt =====
-- The connections that messages were written over, in the cache and when they are closed.
use mathlib.Core.List.{Memᴰ}
use mathlib.Core.List.Memᴰ.{head, tail}
use udplb.Base.{
  ℕ, ◌≡◌, sym, Option, none, some, List, [], ◌∷◌, Map, lookup, IsMap, ◌==◌, bytes_comparable,
  if◌then◌else◌, some_same, not_some, inl, inr, Bool-cases, All,
}
use udplb.Types.{Uuid}
use udplb.Cluster.{Node, conns_of}
use udplb.Cluster.Peers.{reached, or_else}
use udplb.Cluster.SendLoop.{Stage, looping, terminating, loop_returned, Delivery}

module _ {C : Type 0} where
  -- The writes of a message: one to a node at most, none to the node itself or to an id that is no node.
  pub record Written (self : Uuid) (nodes : Map Uuid Node) (d : Delivery C) : Type 0 where
    pub once : IsMap d.writes
    pub peers :
        (id : Uuid)
        → (if id == self then none else lookup id nodes) ≡ none
        → lookup id d.writes ≡ none

  -- Every connection that a message was written over is among those closed.
  abbrev pub Closed : List C → Delivery C → Type 0
  Closed closed d = (id : Uuid) (conn : C) → lookup id d.writes ≡ some conn → Memᴰ conn closed

  -- The connections of the writes, in the cache as long as the loop uses it, and closed afterwards.
  abbrev pub Kept : Map Uuid C → List C → Stage → Delivery C → Type 0
  Kept conns closed looping d =
      (id : Uuid) (conn : C) → lookup id d.writes ≡ some conn → lookup id conns ≡ some conn
  Kept conns closed terminating d =
      (id : Uuid) (conn : C) → lookup id d.writes ≡ some conn → lookup id conns ≡ some conn
  Kept conns closed loop_returned d = Closed closed d

  pub conns_of-Memᴰ :
      (id : Uuid) (conn : C) (conns : Map Uuid C)
      → lookup id conns ≡ some conn
      → Memᴰ conn (conns_of conns)
  conns_of-Memᴰ id conn [] e = absurd (not_some conn e)
  conns_of-Memᴰ id conn ((k, c) ∷ conns) e = elim (Bool-cases (k == id)) [
    | inl t ↦ head (sym (some_same (rw (t, if◌then◌else◌) at e)))
    | inr f ↦ tail (conns_of-Memᴰ id conn conns (rw (f, if◌then◌else◌) at e))
  ]

  pub reached_over :
      (dial : List ℕ → Option C) (n : Option Node) (cached : Option C) (conn : C)
      → reached dial n cached ≡ some conn
      → or_else cached (reached dial n cached) ≡ some conn
  reached_over dial none cached conn e = absurd (not_some conn e)
  reached_over dial (some p) none conn e = e
  reached_over dial (some p) (some c) conn e = e

  pub cached_over :
      (cached o : Option C) (conn : C) → cached ≡ some conn → or_else cached o ≡ some conn
  cached_over none o conn e = absurd (not_some conn e)
  cached_over (some c) o conn e = e

  pub all_closed :
      (conns : Map Uuid C) (closed : List C) (ds : List (Delivery C))
      → All (Kept conns closed terminating) ds
      → All (Kept [] (conns_of conns) loop_returned) ds
  all_closed conns closed [] a = tt
  all_closed conns closed (d ∷ ds) (k, a) =
      (λ id conn w. conns_of-Memᴰ id conn conns (k id conn w), all_closed conns closed ds a)

  pub still_cached :
      (conns conns' : Map Uuid C) (closed : List C) (ds : List (Delivery C))
      → ((id : Uuid) (conn : C) → lookup id conns ≡ some conn → lookup id conns' ≡ some conn)
      → All (Kept conns closed looping) ds
      → All (Kept conns' closed looping) ds
  still_cached conns conns' closed [] m a = tt
  still_cached conns conns' closed (d ∷ ds) m (k, a) =
      (λ id conn w. m id conn (k id conn w), still_cached conns conns' closed ds m a)
