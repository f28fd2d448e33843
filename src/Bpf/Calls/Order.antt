-- ===== src/Bpf/Calls/Order.antt =====
-- The events are handled one after the other, whatever the interleaving.
use mathlib.Core.Path.{subst}
use udplb.Base.{
  ℕ, zero, suc, ◌≡◌, refl, sym, ap, ◌∙◌, Bool, true, false, ◌||◌, ◌&&◌, Option, none, some,
  some_same, List, [], ◌∷◌, nat_beq, nat_beq_iff, get_elem?, arith, not_some, else_some, then_some,
}
use udplb.WorkerPool.{Pool, run_job, close_pool, stop_worker, leave}
use udplb.Bpf.{Objects, Event}
use udplb.Bpf.Calls.{
  Manager, accept, work, terminate, is_blocked, put_pool, end_loop, stop, finish, receive, abort,
}
use udplb.Bpf.Calls.Step.{
  Step, submits, accepts, works, terminates, ends_loop, stops, finishes, receives, aborts, closes,
  Reach, created, stepped,
}
use udplb.Bpf.Calls.Frame.{Linear}
use udplb.Bpf.Calls.Linear.{Consistent, submit-Consistent}
use udplb.Bpf.Calls.Returns.{receive-Consistent, abort-Consistent, close-Consistent}
use udplb.Bpf.Calls.Accept.{accept-Consistent}
use udplb.Bpf.Calls.Work.{work-Consistent}

module _ {S B : Type 0} (objs : Objects S B) (s : S) where
  terminate-Consistent :
      (mgr mgr' : Manager S B)
      → terminate mgr ≡ some mgr'
      → Consistent objs s mgr
      → Consistent objs s mgr'
  unfolding terminate close_pool
  terminate-Consistent mgr mgr' a h = from_pool (close_pool mgr.pool) refl a
    where
      from_pool :
          (o : Option (Pool (ℕ × Event B)))
          → close_pool mgr.pool ≡ o
          → put_pool o mgr ≡ some mgr'
          → Consistent objs s mgr'
      from_pool none p q = absurd (not_some mgr' q)
      from_pool (some pool) p q =
          let (off, e) = else_some mgr.pool.terminate_closed _ pool p in
          subst (Consistent objs s) (ap (λ x. record mgr { pool = x }) (some_same e) ∙ some_same q)
            (record {
              kernel = h.kernel;
              served = h.served;
              only = h.only;
              waiting = h.waiting;
              once = h.once;
              ended = h.ended;
              over = h.over;
              busy = h.busy;
              at_work = h.at_work;
            })

  stop-Consistent :
      (k : ℕ) (q : List (ℕ × Event B)) (mgr mgr' : Manager S B)
      → mgr.pool.workers ≡ k
      → is_blocked mgr.blocked ≡ false
      → put_pool (leave k q mgr.pool) mgr ≡ some mgr'
      → Consistent objs s mgr
      → Consistent objs s mgr'
  stop-Consistent zero q mgr mgr' w free a h = absurd (not_some mgr' a)
  stop-Consistent (suc k) (f ∷ q) mgr mgr' w free a h = absurd (not_some mgr' a)
  stop-Consistent (suc k) [] mgr mgr' w free a h = from_pool (leave (suc k) [] mgr.pool) refl a
    where
      from_pool :
          (o : Option (Pool (ℕ × Event B)))
          → leave (suc k) [] mgr.pool ≡ o
          → put_pool o mgr ≡ some mgr'
          → Consistent objs s mgr'
      from_pool none p r = absurd (not_some mgr' r)
      from_pool (some pool) p r =
          let (ended, e) = then_some (mgr.pool.q_closed || mgr.pool.terminate_closed) _ pool p in
          subst (Consistent objs s) (ap (λ x. record mgr { pool = x }) e ∙ some_same r) (record {
            kernel = h.kernel;
            served = h.served;
            only = h.only;
            waiting = h.waiting;
            once = h.once;
            ended = h.ended;
            over = λ d. let x = sym w ∙ h.over d in absurd (ground arith);
            busy = h.busy;
            at_work = λ b. let x = sym free ∙ b in absurd (ground arith);
          })

  finish-Consistent :
      (mgr mgr' : Manager S B)
      → finish mgr ≡ some mgr'
      → Consistent objs s mgr
      → Consistent objs s mgr'
  unfolding finish
  finish-Consistent mgr mgr' a h =
      let (c, e) = then_some (mgr.loop_ended && nat_beq mgr.pool.workers 0) _ mgr' a in
      let (ended, idle) = both mgr.loop_ended (nat_beq mgr.pool.workers 0) c in
      subst (Consistent objs s) e (record {
        kernel = h.kernel;
        served = h.served;
        only = h.only;
        waiting = λ d. absurd (ground arith);
        once = h.once;
        ended = λ d. ended;
        over = λ d. (nat_beq_iff mgr.pool.workers 0).0 idle;
        busy = h.busy;
        at_work = h.at_work;
      })
    where
      both : (b c : Bool) → (b && c) ≡ true → (b ≡ true) × (c ≡ true)
      both true c p = (refl, p)
      both false c p = absurd (ground arith)

  Step-Consistent :
      (mgr mgr' : Manager S B) → Step objs mgr mgr' → Consistent objs s mgr → Consistent objs s mgr'
  unfolding accept work run_job stop stop_worker receive abort end_loop
  Step-Consistent mgr mgr' (submits e p) h =
      subst (Consistent objs s) (sym p) (submit-Consistent objs s e mgr h)
  Step-Consistent mgr mgr' (accepts i p) h =
      accept-Consistent objs s i (get_elem? mgr.calls i) mgr mgr' refl p h
  Step-Consistent mgr mgr' (works p) h =
      let (free, p') = else_some (is_blocked mgr.blocked) _ mgr' p in
      work-Consistent objs s mgr.pool.workers mgr.pool.q mgr mgr' refl refl free p' h
  Step-Consistent mgr mgr' (terminates p) h = terminate-Consistent mgr mgr' p h
  Step-Consistent mgr mgr' (ends_loop p) h = subst (Consistent objs s) (sym p) (record {
    kernel = h.kernel;
    served = h.served;
    only = h.only;
    waiting = h.waiting;
    once = h.once;
    ended = λ d. refl;
    over = h.over;
    busy = h.busy;
    at_work = h.at_work;
  })
  Step-Consistent mgr mgr' (stops p) h =
      let (free, p') = else_some (is_blocked mgr.blocked) _ mgr' p in
      stop-Consistent mgr.pool.workers mgr.pool.q mgr mgr' refl free p' h
  Step-Consistent mgr mgr' (finishes p) h = finish-Consistent mgr mgr' p h
  Step-Consistent mgr mgr' (receives i p) h =
      receive-Consistent objs s i (get_elem? mgr.calls i) mgr mgr' refl p h
  Step-Consistent mgr mgr' (aborts i p) h =
      abort-Consistent objs s i (get_elem? mgr.calls i) mgr mgr' refl p h
  Step-Consistent mgr mgr' (closes p) h = close-Consistent objs s mgr mgr' p h

  Reach-Consistent : {mgr : Manager S B} → Reach objs s mgr → Consistent objs s mgr
  Reach-Consistent created = record {
    kernel = refl;
    served = tt;
    only = λ i e. absurd (ground arith);
    waiting = λ d. tt;
    once = tt;
    ended = λ d. absurd (ground arith);
    over = λ d. absurd (ground arith);
    busy = λ i e. absurd (ground arith);
    at_work = λ b. absurd (ground arith);
  }
  Reach-Consistent (stepped {mgr} {mgr'} r p) = Step-Consistent mgr mgr' p (Reach-Consistent r)

  -- Whatever calls, event loop, worker and `Close` do in turn, the kernel state is what the events taken
  -- by the worker made of the first one, one after the other in the order taken. The call of each of
  -- these events has returned the answer that the event gave there, or can receive it; only a call whose
  -- event gave no error may instead have been aborted. No other call has an answer.
  pub Reach-Linear : {mgr : Manager S B} → Reach objs s mgr → Linear objs s mgr
  Reach-Linear r =
      let h = Reach-Consistent r in record { kernel = h.kernel; served = h.served; only = h.only }
