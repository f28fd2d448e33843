-- ===== src/Cluster/SendLoop/Steps.antt =====
-- What a step does to the order of the messages.
use mathlib.Core.Path.{subst}
use mathlib.Core.List.{append_assoc}
use udplb.Base.{
  ℕ, ◌≡◌, ◌≢◌, refl, sym, ap, ◌∙◌, true, false, ◌||◌, Option, none, some, List, [], ◌∷◌, ◌++◌,
  get_elem?, set, set-cases, arith, some_same, not_some, else_some, then_some, inl, inr,
}
use udplb.Cluster.{ClusterMux, send_message}
use udplb.Cluster.SendLoop.Trace.{
  sent_on, received_from, other_sent, own_sent, other_received, own_received,
}
use udplb.Cluster.SendLoop.Placed.{
  Placed, send_to-Placed, close_source-Placed, receive_source-Placed, stop_source-Placed, told,
}
use udplb.Cluster.SendLoop.{
  Reader, selecting, reader_returned, holding, Source, Stage, looping, terminating, loop_returned,
  Delivery, SendLoop, Event, sends, closes, receives, stops, merges, leaves, finishes, terminates,
  is_returned, all_returned, send_to, close_source, receive_source, stop_source, put_source,
  at_source, merge_data, merge_from, leave_loop, finish_loop, step,
}
use udplb.Cluster.SendLoop.Stays.{
  all_returned_at, all_returned-set, Stays, send_to-Stays, close_source-Stays, receive_source-Stays,
  stop_source-Stays,
}

module _ {C : Type 0} where
  abbrev pub Sources : List (Event C) → SendLoop C → Type 0
  Sources es s =
      (i : ℕ) (src : Source)
      → get_elem? s.sources i ≡ some src
      → Placed s.terminate_closed (sent_on i es) (received_from i s.delivered) src src.reader

  -- Every source has its messages placed, and the loop stops early only if it is told to terminate.
  pub record Orders (es : List (Event C)) (s : SendLoop C) : Type 0 where
    pub placed : Sources es s
    pub left : s.stage ≢ looping → s.terminate_closed ≡ false → all_returned s.sources ≡ true

  -- One source is replaced, with or without a delivery from it.
  replaced :
      (es es' : List (Event C)) (s : SendLoop C) (i : ℕ) (src src' : Source) (cm : ClusterMux C)
      (ds : List (Delivery C))
      → Orders es s
      → get_elem? s.sources i ≡ some src
      → ((j : ℕ) → i ≢ j → sent_on j es' ≡ sent_on j es)
      → ((j : ℕ) → i ≢ j → received_from j ds ≡ received_from j s.delivered)
      → Placed s.terminate_closed (sent_on i es') (received_from i ds) src' src'.reader
      → (s.stage ≢ looping → s.terminate_closed ≡ false → is_returned src'.reader ≡ true)
      → Orders es' (record s { mux = cm; sources = set s.sources i src'; delivered = ds })
  replaced es es' s i src src' cm ds h g same_sent same_received p returned = record {
    placed = λ j a at_j. elim (set-cases s.sources i j src src' a g at_j) [
      | inl (same, q) ↦
          subst (λ k. Placed s.terminate_closed (sent_on k es') (received_from k ds) a a.reader)
            same
            (subst (λ r. Placed s.terminate_closed (sent_on i es') (received_from i ds) r r.reader)
              q p)
      | inr (ne, old) ↦ rw (same_sent j ne, same_received j ne) (h.placed j a old)
    ];
    left = λ over off. all_returned-set s.sources i src' (h.left over off) (returned over off);
  }

  put_source-Orders :
      (es es' : List (Event C)) (s s' : SendLoop C) (f : Source → Option Source) (i : ℕ)
      (src : Source) (o : Option Source)
      → Orders es s
      → get_elem? s.sources i ≡ some src
      → f src ≡ o
      → put_source i o s ≡ some s'
      → ((j : ℕ) → i ≢ j → sent_on j es' ≡ sent_on j es)
      → ((src' : Source)
          → f src ≡ some src'
          → Placed s.terminate_closed (sent_on i es) (received_from i s.delivered) src src.reader
          → Placed s.terminate_closed
              (sent_on i es')
              (received_from i s.delivered)
              src'
              src'.reader)
      → Stays f
      → Orders es' s'
  put_source-Orders es es' s s' f i src none h g e a other one stay = absurd (not_some s' a)
  put_source-Orders es es' s s' f i src (some src') h g e a other one stay =
      subst (Orders es') (some_same a) (
        replaced es es' s i src src' s.mux s.delivered h g other (λ j ne. refl)
          (one src' e (h.placed i src g))
          (λ over off. stay src src' e (all_returned_at s.sources i src (h.left over off) g)))

  at_source-Orders :
      (es es' : List (Event C)) (s s' : SendLoop C) (f : Source → Option Source) (i : ℕ)
      (o : Option Source)
      → Orders es s
      → get_elem? s.sources i ≡ o
      → at_source f i o s ≡ some s'
      → ((j : ℕ) → i ≢ j → sent_on j es' ≡ sent_on j es)
      → ((src src' : Source)
          → f src ≡ some src'
          → Placed s.terminate_closed (sent_on i es) (received_from i s.delivered) src src.reader
          → Placed s.terminate_closed
              (sent_on i es')
              (received_from i s.delivered)
              src'
              src'.reader)
      → Stays f
      → Orders es' s'
  at_source-Orders es es' s s' f i none h g a other one stay = absurd (not_some s' a)
  at_source-Orders es es' s s' f i (some src) h g a other one stay =
      put_source-Orders es es' s s' f i src (f src) h g refl a other (one src) stay

  merge_data-Orders :
      (es : List (Event C)) (s s' : SendLoop C) (i : ℕ) (dial : List ℕ → Option C) (src : Source)
      (reader : Reader)
      → Orders es s
      → s.stage ≡ looping
      → get_elem? s.sources i ≡ some src
      → src.reader ≡ reader
      → merge_data dial i src reader s ≡ some s'
      → Orders (merges i dial ∷ es) s'
  merge_data-Orders es s s' i dial src selecting h l g r e = absurd (not_some s' e)
  merge_data-Orders es s s' i dial src reader_returned h l g r e = absurd (not_some s' e)
  merge_data-Orders es s s' i dial src (holding msg) h l g r e =
      let (cm, writes) = send_message dial s.mux in
      let d : Delivery C = record { from = i; message = msg; writes = writes } in
      let p =
        subst (Placed s.terminate_closed (sent_on i es) (received_from i s.delivered) src) r
          (h.placed i src g) in
      subst (Orders (merges i dial ∷ es)) (some_same e) (
        replaced es (merges i dial ∷ es) s i src (record src { reader = selecting }) cm
          (d ∷ s.delivered) h g (λ j ne. refl) (other_received d s.delivered)
          (ap (λ l. l ++ src.feed) (own_received i d s.delivered refl)
            ∙ append_assoc (received_from i s.delivered) (msg ∷ []) src.feed
            ∙ p)
          (λ over off. absurd (over l)))

  merge_from-Orders :
      (es : List (Event C)) (s s' : SendLoop C) (i : ℕ) (dial : List ℕ → Option C) (stage : Stage)
      (o : Option Source)
      → Orders es s
      → s.stage ≡ stage
      → get_elem? s.sources i ≡ o
      → merge_from dial i stage o s ≡ some s'
      → Orders (merges i dial ∷ es) s'
  merge_from-Orders es s s' i dial looping none h l g e = absurd (not_some s' e)
  merge_from-Orders es s s' i dial looping (some src) h l g e =
      merge_data-Orders es s s' i dial src src.reader h l g refl e
  merge_from-Orders es s s' i dial terminating o h l g e = absurd (not_some s' e)
  merge_from-Orders es s s' i dial loop_returned o h l g e = absurd (not_some s' e)

  leave_loop-Orders :
      (es : List (Event C)) (s s' : SendLoop C) (stage : Stage)
      → Orders es s
      → leave_loop stage s ≡ some s'
      → Orders (leaves ∷ es) s'
  leave_loop-Orders es s s' looping h e =
      let (b, e') = then_some (s.terminate_closed || all_returned s.sources) _ s' e in
      subst (Orders (leaves ∷ es)) e'
        (record { placed = h.placed; left = λ over off. ground arith })
  leave_loop-Orders es s s' terminating h e = absurd (not_some s' e)
  leave_loop-Orders es s s' loop_returned h e = absurd (not_some s' e)

  finish_loop-Orders :
      (es : List (Event C)) (s s' : SendLoop C) (stage : Stage)
      → Orders es s
      → s.stage ≡ stage
      → finish_loop stage s ≡ some s'
      → Orders (finishes ∷ es) s'
  finish_loop-Orders es s s' looping h l e = absurd (not_some s' e)
  finish_loop-Orders es s s' terminating h l e =
      subst (Orders (finishes ∷ es)) (some_same e)
        (record { placed = h.placed; left = λ over off. h.left (λ p. ground arith) off })
  finish_loop-Orders es s s' loop_returned h l e = absurd (not_some s' e)

  pub step-Orders :
      (es : List (Event C)) (s s' : SendLoop C) (e : Event C)
      → Orders es s
      → step e s ≡ some s'
      → Orders (e ∷ es) s'
  unfolding step
  step-Orders es s s' (sends i msg) h e =
      at_source-Orders es (sends i msg ∷ es) s s' (send_to msg) i (get_elem? s.sources i) h refl e
        (other_sent i msg es)
        (λ src src' f p.
          subst (λ l. Placed s.terminate_closed l (received_from i s.delivered) src' src'.reader)
            (sym (own_sent i msg es))
            (send_to-Placed (sent_on i es) (received_from i s.delivered) s.terminate_closed msg src
              src' f p))
        (send_to-Stays msg)
  step-Orders es s s' (closes i) h e =
      at_source-Orders es (closes i ∷ es) s s' close_source i (get_elem? s.sources i) h refl e
        (λ j ne. refl)
        (close_source-Placed (sent_on i es) (received_from i s.delivered) s.terminate_closed)
        close_source-Stays
  step-Orders es s s' (receives i) h e =
      at_source-Orders es (receives i ∷ es) s s' (λ src. receive_source src.reader src) i
        (get_elem? s.sources i) h refl e (λ j ne. refl)
        (λ src src' f p.
          receive_source-Placed (sent_on i es) (received_from i s.delivered) s.terminate_closed src
            src' src.reader f p)
        receive_source-Stays
  step-Orders es s s' (stops i) h e =
      at_source-Orders es (stops i ∷ es) s s' (λ src. stop_source s.terminate_closed src.reader src)
        i (get_elem? s.sources i) h refl e (λ j ne. refl)
        (λ src src' f p.
          stop_source-Placed (sent_on i es) (received_from i s.delivered) s.terminate_closed src
            src' src.reader f p)
        (stop_source-Stays s.terminate_closed)
  step-Orders es s s' (merges i dial) h e =
      merge_from-Orders es s s' i dial s.stage (get_elem? s.sources i) h refl refl e
  step-Orders es s s' leaves h e = leave_loop-Orders es s s' s.stage h e
  step-Orders es s s' finishes h e = finish_loop-Orders es s s' s.stage h refl e
  step-Orders es s s' terminates h e =
      let (off, e') = else_some s.terminate_closed _ s' e in
      subst (Orders (terminates ∷ es)) (some_same e') (record {
        placed = λ i src g.
            told (sent_on i es) (received_from i s.delivered) s.terminate_closed src src.reader
              (h.placed i src g);
        left = λ over off'. absurd (ground arith);
      })
