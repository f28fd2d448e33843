-- ===== src/Cluster/SendLoop/Trace.antt =====
-- What was sent on a source, and what was received from it, along a run.
use udplb.Base.{ℕ, ◌≡◌, ◌≢◌, refl, true, false, List, [], ◌∷◌, ◌++◌, nat_beq, if◌then◌else◌, arith}
use udplb.Cluster.SendLoop.{
  Delivery, Event, sends, closes, receives, stops, merges, leaves, finishes, terminates,
}

module _ {C : Type 0} where
  abbrev pub with_sent : ℕ → Event C → List (List ℕ) → List (List ℕ)
  with_sent i (sends j msg) sent = if nat_beq j i then sent ++ (msg ∷ []) else sent
  with_sent i (closes j) sent = sent
  with_sent i (receives j) sent = sent
  with_sent i (stops j) sent = sent
  with_sent i (merges j dial) sent = sent
  with_sent i leaves sent = sent
  with_sent i finishes sent = sent
  with_sent i terminates sent = sent

  -- What was sent on source `i`, in order.
  abbrev pub sent_on : ℕ → List (Event C) → List (List ℕ)
  sent_on i [] = []
  sent_on i (e ∷ es) = with_sent i e (sent_on i es)

  -- What the loop received from source `i`, in order.
  abbrev pub received_from : ℕ → List (Delivery C) → List (List ℕ)
  received_from i [] = []
  received_from i (d ∷ ds) =
      if nat_beq d.from i then received_from i ds ++ (d.message ∷ []) else received_from i ds

module _ {C : Type 0} where
  pub other_sent :
      (i : ℕ) (msg : List ℕ) (es : List (Event C)) (j : ℕ)
      → i ≢ j
      → sent_on j (sends i msg ∷ es) ≡ sent_on j es
  other_sent i msg es j ne =
      let o : nat_beq i j ≡ false = ground arith in rw (o, if◌then◌else◌) refl

  pub own_sent :
      (i : ℕ) (msg : List ℕ) (es : List (Event C))
      → sent_on i (sends i msg ∷ es) ≡ sent_on i es ++ (msg ∷ [])
  own_sent i msg es = let o : nat_beq i i ≡ true = ground arith in rw (o, if◌then◌else◌) refl

  pub other_received :
      (d : Delivery C) (ds : List (Delivery C)) (j : ℕ)
      → d.from ≢ j
      → received_from j (d ∷ ds) ≡ received_from j ds
  other_received d ds j ne =
      let o : nat_beq d.from j ≡ false = ground arith in rw (o, if◌then◌else◌) refl

  pub own_received :
      (i : ℕ) (d : Delivery C) (ds : List (Delivery C))
      → d.from ≡ i
      → received_from i (d ∷ ds) ≡ received_from i ds ++ (d.message ∷ [])
  own_received i d ds e =
      let o : nat_beq d.from i ≡ true = ground arith in rw (o, if◌then◌else◌) refl
