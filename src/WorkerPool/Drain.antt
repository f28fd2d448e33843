-- ===== src/WorkerPool/Drain.antt =====
-- What the pool has run when a worker returns.
use mathlib.Core.Path.{subst}
use mathlib.Core.List.{append-nil, append_assoc}
use udplb.Base.{
  ℕ, zero, suc, ◌<◌, ◌≡◌, refl, sym, ap, ◌∙◌, Bool, true, false, ◌||◌, some, List, [], ◌∷◌, ◌++◌,
  arith, some_same, not_some, not_empty, else_some, then_some, ltb, length,
}
use udplb.WorkerPool.{
  Pool, new_pool, send_job, hand_to, hand_over, close_q, close_pool, take_job, run_job, leave,
  stop_worker,
}

-- The pools that a new one of `n` workers leads to, with what was sent, and with what had been sent
-- when the workers were told to terminate.
pub data Reach {ℓ} {J : Type ℓ} (n capacity : ℕ) : List J → List J → Pool J → Type ℓ where
  created : Reach n capacity [] [] (new_pool n)
  sends :
      {sent before : List J} {p p' : Pool J} (f : J)
      → Reach n capacity sent before p
      → send_job capacity f p ≡ some p'
      → Reach n capacity (sent ++ (f ∷ [])) before p'
  hands_over :
      {sent before : List J} {p p' : Pool J} (f : J)
      → Reach n capacity sent before p
      → hand_over f p ≡ some p'
      → Reach n capacity (sent ++ (f ∷ [])) before p'
  closes :
      {sent before : List J} {p p' : Pool J}
      → Reach n capacity sent before p
      → close_q p ≡ some p'
      → Reach n capacity sent before p'
  terminates :
      {sent before : List J} {p p' : Pool J}
      → Reach n capacity sent before p
      → close_pool p ≡ some p'
      → Reach n capacity sent sent p'
  runs :
      {sent before : List J} {p p' : Pool J}
      → Reach n capacity sent before p
      → run_job p ≡ some p'
      → Reach n capacity sent before p'
  stops :
      {sent before : List J} {p p' : Pool J}
      → Reach n capacity sent before p
      → stop_worker p ≡ some p'
      → Reach n capacity sent before p'

closed_of : (b c : Bool) → (b || c) ≡ true → c ≡ false → b ≡ true
closed_of true c e f = refl
closed_of false c e f = absurd (ground arith)

module _ {ℓ} {J : Type ℓ} where
  -- The jobs taken and those in the queue are what was sent, in order; once a worker has returned, what
  -- had been sent before the workers were told to terminate was taken.
  record Drains (n : ℕ) (sent before : List J) (p : Pool J) : Type ℓ where
    in_order : p.executed ++ p.q ≡ sent
    begun : (rest : List J) × (sent ≡ before ++ rest)
    drained : p.workers < n → (rest : List J) × (p.executed ≡ before ++ rest)
    quiet : p.workers < n → p.terminate_closed ≡ false → (p.q_closed ≡ true) × (p.q ≡ [])

  send_job-Drains :
      (n capacity : ℕ) (f : J) (sent before : List J) (p p' : Pool J)
      → Drains n sent before p
      → send_job capacity f p ≡ some p'
      → Drains n (sent ++ (f ∷ [])) before p'
  unfolding send_job
  send_job-Drains n capacity f sent before p p' d e =
      let (open_q, e') = else_some p.q_closed _ p' e in
      let (room, e'') = then_some (ltb (length p.q) capacity) _ p' e' in
      let (rest, r) = d.begun in
      subst (Drains n (sent ++ (f ∷ [])) before) e'' (record {
        in_order = sym (append_assoc p.executed p.q (f ∷ [])) ∙ ap (λ l. l ++ (f ∷ [])) d.in_order;
        begun = (rest ++ (f ∷ []), ap (λ l. l ++ (f ∷ [])) r ∙ append_assoc before rest (f ∷ []));
        drained = d.drained;
        quiet = λ left on. let h = sym open_q ∙ (d.quiet left on).0 in absurd (ground arith);
      })

  all_taken :
      (n : ℕ) (sent before : List J) (p : Pool J)
      → Drains n sent before p
      → p.q ≡ []
      → p.executed ≡ sent
  all_taken n sent before p d e =
      sym (append-nil p.executed) ∙ ap (λ l. p.executed ++ l) (sym e) ∙ d.in_order

  hand_to-Drains :
      (n k : ℕ) (q : List J) (f : J) (sent before : List J) (p p' : Pool J)
      → p.q ≡ q
      → p.q_closed ≡ false
      → Drains n sent before p
      → hand_to k q f p ≡ some p'
      → Drains n (sent ++ (f ∷ [])) before p'
  hand_to-Drains n zero q f sent before p p' s o d e = absurd (not_some p' e)
  hand_to-Drains n (suc k) (g ∷ q) f sent before p p' s o d e = absurd (not_some p' e)
  hand_to-Drains n (suc k) [] f sent before p p' s o d e =
      let (rest, r) = d.begun in
      subst (Drains n (sent ++ (f ∷ [])) before) (some_same e) (record {
        in_order =
            ap (λ l. (p.executed ++ (f ∷ [])) ++ l) s
            ∙ append-nil (p.executed ++ (f ∷ []))
            ∙ ap (λ l. l ++ (f ∷ [])) (all_taken n sent before p d s);
        begun = (rest ++ (f ∷ []), ap (λ l. l ++ (f ∷ [])) r ∙ append_assoc before rest (f ∷ []));
        drained = λ left.
            let (more, t) = d.drained left in
            (more ++ (f ∷ []), ap (λ l. l ++ (f ∷ [])) t ∙ append_assoc before more (f ∷ []));
        quiet = λ left on. let h = sym o ∙ (d.quiet left on).0 in absurd (ground arith);
      })

  hand_over-Drains :
      (n : ℕ) (f : J) (sent before : List J) (p p' : Pool J)
      → Drains n sent before p
      → hand_over f p ≡ some p'
      → Drains n (sent ++ (f ∷ [])) before p'
  unfolding hand_over
  hand_over-Drains n f sent before p p' d e =
      let (o, e') = else_some p.q_closed _ p' e in
      hand_to-Drains n p.workers p.q f sent before p p' refl o d e'

  close_q-Drains :
      (n : ℕ) (sent before : List J) (p p' : Pool J)
      → Drains n sent before p
      → close_q p ≡ some p'
      → Drains n sent before p'
  unfolding close_q
  close_q-Drains n sent before p p' d e =
      let (open_q, e') = else_some p.q_closed _ p' e in
      subst (Drains n sent before) (some_same e') (record {
        in_order = d.in_order;
        begun = d.begun;
        drained = d.drained;
        quiet = λ left on. (refl, (d.quiet left on).1);
      })

  close_pool-Drains :
      (n : ℕ) (sent before : List J) (p p' : Pool J)
      → Drains n sent before p
      → close_pool p ≡ some p'
      → Drains n sent sent p'
  unfolding close_pool
  close_pool-Drains n sent before p p' d e =
      let (on, e') = else_some p.terminate_closed _ p' e in
      subst (Drains n sent sent) (some_same e') (record {
        in_order = d.in_order;
        begun = ([], sym (append-nil sent));
        drained =
            λ left. ([], all_taken n sent before p d (d.quiet left on).1 ∙ sym (append-nil sent));
        quiet = λ left off. absurd (ground arith);
      })

  take_job-Drains :
      (n k : ℕ) (q sent before : List J) (p p' : Pool J)
      → p.q ≡ q
      → Drains n sent before p
      → take_job k q p ≡ some p'
      → Drains n sent before p'
  take_job-Drains n zero q sent before p p' s d e = absurd (not_some p' e)
  take_job-Drains n (suc k) [] sent before p p' s d e = absurd (not_some p' e)
  take_job-Drains n (suc k) (f ∷ q) sent before p p' s d e =
      subst (Drains n sent before) (some_same e) (record {
        in_order =
            append_assoc p.executed (f ∷ []) q ∙ ap (λ l. p.executed ++ l) (sym s) ∙ d.in_order;
        begun = d.begun;
        drained = λ left.
            let (rest, r) = d.drained left in
            (rest ++ (f ∷ []), ap (λ l. l ++ (f ∷ [])) r ∙ append_assoc before rest (f ∷ []));
        quiet = λ left on. let h = sym s ∙ (d.quiet left on).1 in absurd (not_empty f q h);
      })

  leave-Drains :
      (n k : ℕ) (q sent before : List J) (p p' : Pool J)
      → p.q ≡ q
      → Drains n sent before p
      → leave k q p ≡ some p'
      → Drains n sent before p'
  leave-Drains n zero q sent before p p' s d e = absurd (not_some p' e)
  leave-Drains n (suc k) (f ∷ q) sent before p p' s d e = absurd (not_some p' e)
  leave-Drains n (suc k) [] sent before p p' s d e =
      let (ended, e') = then_some (p.q_closed || p.terminate_closed) _ p' e in
      let (rest, r) = d.begun in
      subst (Drains n sent before) e' (record {
        in_order = d.in_order;
        begun = d.begun;
        drained = λ left. (rest, all_taken n sent before p d s ∙ r);
        quiet = λ left on. (closed_of p.q_closed p.terminate_closed ended on, s);
      })

  Reach-Drains :
      {n capacity : ℕ} {sent before : List J} {p : Pool J}
      → Reach n capacity sent before p
      → Drains n sent before p
  unfolding run_job stop_worker
  Reach-Drains created = record {
    in_order = refl;
    begun = ([], refl);
    drained = λ left. absurd (omega arith);
    quiet = λ left on. absurd (omega arith);
  }
  Reach-Drains (sends {sent = sent} {before} {p} {p'} f r e) =
      send_job-Drains _ _ f sent before p p' (Reach-Drains r) e
  Reach-Drains (hands_over {sent = sent} {before} {p} {p'} f r e) =
      hand_over-Drains _ f sent before p p' (Reach-Drains r) e
  Reach-Drains (closes {p = p} {p'} r e) = close_q-Drains _ _ _ p p' (Reach-Drains r) e
  Reach-Drains (terminates {before = before} {p} {p'} r e) =
      close_pool-Drains _ _ before p p' (Reach-Drains r) e
  Reach-Drains (runs {p = p} {p'} r e) =
      take_job-Drains _ p.workers p.q _ _ p p' refl (Reach-Drains r) e
  Reach-Drains (stops {p = p} {p'} r e) =
      leave-Drains _ p.workers p.q _ _ p p' refl (Reach-Drains r) e

  -- Jobs are taken in the order sent, each once; and once one of the workers has returned, as all have
  -- when `doneCh` is closed, every job that was sent before the workers were told to terminate was
  -- taken.
  pub Reach-drained :
      {n capacity : ℕ} {sent before : List J} {p : Pool J}
      → Reach n capacity sent before p
      → (p.executed ++ p.q ≡ sent)
        × (p.workers < n → (rest : List J) × (p.executed ≡ before ++ rest))
  Reach-drained r = let d = Reach-Drains r in (d.in_order, d.drained)
