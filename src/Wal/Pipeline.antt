-- ===== src/Wal/Pipeline.antt =====
-- internal/adapter/wal/wal.go: proposals on their way through the log.
use udplb.Base.{
  ℕ, zero, suc, ◌-◌, ◌<◌, ◌≤◌, ◌≡◌, refl, ap, ◌∙◌, Option, none, some, List, [], ◌∷◌, map, length,
  length-map, some_same, drop, arith, Option-cases, inl, inr,
}
use udplb.Types.{Command}
use udplb.RingBuffer.{RingBuffer, new_ring_buffer, write, next}
use udplb.RingBuffer.History.{write_all, write_all-push_all, push_all, push_all-new}
use udplb.RingBuffer.Fifo.{Stores, IsValid, next-Stores, new_ring_buffer-IsValid}
use mathlib.Core.Path.{subst}
use udplb.LinkedList.{LinkedList, append, walk}
use udplb.LinkedList.Append.{append_all, walk-append_all}
use udplb.Wal.{
  WalEntry, Wal, new_wal, propose_data, buffered, taken, read_held, read_proposal, accept_proposal,
}

module _ {ℓ} {T : Type ℓ} where
  -- `dvds.Propose` for each value.
  unfoldable pub propose_all : List T → Wal T → Option (Wal T)
  propose_all [] w = some w
  propose_all (v ∷ vs) w = elim (propose_data v w) [ none ↦ none | some w' ↦ propose_all vs w' ]

  -- n times a step of the reader and one of the event loop, and what they dispatch.
  unfoldable pub drain : ℕ → Wal T → Option (List (List T) × Wal T)
  drain zero w = some ([], w)
  drain (suc n) w = elim (read_proposal w) [
    | none ↦ none
    | some w1 ↦ elim (accept_proposal w1) [
      | none ↦ none
      | some (sent, w2) ↦ elim (drain n w2) [
        | none ↦ none
        | some (more, w3) ↦ some (sent ∷ more, w3)
      ]
    ]
  ]

  -- The entry that a value becomes in the log `name`.
  abbrev pub entry : List ℕ → T → WalEntry T
  entry name v = record { payload = v; verb = Command.put; wal_name = name }

  propose_all-write_all :
      (vs : List T) (w : Wal T) (rb : RingBuffer (WalEntry T))
      → write_all (map (entry w.name) vs) w.proposal_buffer ≡ some rb
      → propose_all vs w ≡ some (record w { proposal_buffer = rb })
  unfolding propose_all write_all propose_data
  propose_all-write_all [] w rb e = ap (buffered w) e
  propose_all-write_all (v ∷ vs) w rb e =
      elim (Option-cases (write (entry w.name v) w.proposal_buffer)) [
        | inl q ↦ absurd (wrong (rw (q, write_all) at e))
        | inr (rb1, q) ↦
            rw (q, propose_all)
              (propose_all-write_all vs (record w { proposal_buffer = rb1 }) rb
                (rw (q, write_all) at e))
      ]
    where
      wrong : none ≡ some rb → ⊥
      wrong p = ground arith

  -- The state after a drain.
  abbrev drained : Wal T → RingBuffer (WalEntry T) → LinkedList (WalEntry T) → Wal T
  drained w rb l = record w { proposal_buffer = rb; linked_list = l; in_hand = none }

  read_proposal-none :
      (w : Wal T) (e : WalEntry T) (rb : RingBuffer (WalEntry T))
      → w.in_hand ≡ none
      → next w.proposal_buffer ≡ some (e, rb)
      → read_proposal w ≡ some (record w { proposal_buffer = rb; in_hand = some e })
  unfolding read_proposal
  read_proposal-none w e rb h q = ap (λ o. read_held o w) h ∙ ap (taken w) q

  drain-Stores :
      (d : ℕ) (es : List (WalEntry T)) (w : Wal T) (l : LinkedList (WalEntry T))
      → w.in_hand ≡ none
      → Stores d w.proposal_buffer es
      → append_all es w.linked_list ≡ some l
      → (rb : RingBuffer (WalEntry T)) × (drain (length es) w
          ≡ some (map (λ (e : WalEntry T). e.payload ∷ []) es, drained w rb l))
        × Stores d rb []
  unfolding drain append_all accept_proposal
  drain-Stores d [] w l h st a = (
    w.proposal_buffer,
    (λ i. some ([], record w { linked_list = some_same a i; in_hand = h i })),
    st,
  )
  drain-Stores d (e ∷ es) w l h st a =
      let (rb1, q, st1) = next-Stores d e w.proposal_buffer es st in
      elim (Option-cases (append e w.linked_list)) [
        | inl p ↦ absurd (wrong (rw (p, append_all) at a))
        | inr (l1, p) ↦
            let (rb, q2, st2) =
              drain-Stores d es (drained w rb1 l1) l refl st1 (rw (p, append_all) at a) in
            (rb, rw (read_proposal-none w e rb1 h q, drain, p, q2) refl, st2)
      ]
    where
      wrong : none ≡ some l → ⊥
      wrong p = ground arith

  -- The values in lists of one, as they are dispatched.
  abbrev pub dispatches : List (WalEntry T) → List (List T)
  dispatches es = map (λ (e : WalEntry T). e.payload ∷ []) es

  -- After proposing a list of values to a new log of positive capacity, no step of the reader or the
  -- event loop between, the log delivers the last 32 of them, all if there are fewer: as many rounds
  -- dispatch each alone, in the order proposed, and a reader of the linked list then meets the last
  -- `capacity` of those entries, each with the verb Put and the log's name.
  pub drain-propose_all :
      (name : List ℕ) (capacity fuel : ℕ) (vs : List T)
      → 0 < capacity
      → capacity ≤ fuel
      → let es = drop (length vs - 32) (map (entry name) vs) in
        (w : Wal T) × (w' : Wal T) × (propose_all vs (new_wal name capacity) ≡ some w)
        × (drain (length es) w ≡ some (dispatches es, w'))
        × (walk fuel w'.linked_list.nodes w'.linked_list.head ≡ drop (length es - capacity) es)
  unfolding new_wal new_ring_buffer
  drain-propose_all name capacity fuel vs pos enough =
      let (rb, e, st) =
        write_all-push_all (map (entry name) vs) (new_ring_buffer 32) []
          (new_ring_buffer-IsValid 32 (omega arith)) in
      let (l, a, seen, _) = walk-append_all capacity fuel es pos enough in
      let (rb', q, _) = drain-Stores 0 es (w rb) l refl (subst (IsValid rb) last st) a in
      (w rb, drained (w rb) rb' l, propose_all-write_all vs (new_wal name capacity) rb e, q, seen)
    where
      es : List (WalEntry T)
      es = drop (length vs - 32) (map (entry name) vs)

      w : RingBuffer (WalEntry T) → Wal T
      w rb = record (new_wal name capacity) { proposal_buffer = rb }

      last : push_all 32 [] (map (entry name) vs) ≡ es
      last =
          push_all-new 32 (map (entry name) vs) (omega arith)
          ∙ ap (λ n. drop (n - 32) (map (entry name) vs)) (length-map (entry name) vs)
