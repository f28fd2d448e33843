-- ===== src/Bpf/Calls/Work.antt =====
-- The worker keeps the invariant of the calls.
use mathlib.Core.Path.{subst}
use udplb.Base.{
  ℕ, ◌<◌, ◌⊎◌, none, get_elem?, get_elem?-set_self, get_elem?-set_ne, get_elem?_lt_length, zero,
  suc, ◌≡◌, refl, sym, ap, ◌∙◌, Bool, true, false, Option, some, some_same, List, [], ◌∷◌, ◌++◌,
  nat_beq, nat_beq_iff, set, if◌then◌else◌, elem, elem-snoc, Distinct, All, arith, Bool-cases,
  not_some, inl, inr,
}
use udplb.WorkerPool.{take_job}
use udplb.Bpf.{Objects, Event, EventError, handle_event}
use udplb.Bpf.Calls.{Status, awaiting, offered, Manager, is_blocked, blocked_by, answer}
use udplb.Bpf.Calls.Frame.{
  ids, ids-snoc, SettledAs, has_answer, is_offered_error, run_jobs, run_jobs-snoc, Served-snoc,
  Served-kept, IsAwaiting, set_all,
}
use udplb.Bpf.Calls.Linear.{Consistent}

module _ {S B : Type 0} (objs : Objects S B) (s : S) where
  -- The job that the worker takes: its call waits, and no other job in the queue is of that call.
  worked-Consistent :
      (i : ℕ) (e : Event B) (q : List (ℕ × Event B)) (mgr : Manager S B)
      → mgr.pool.q ≡ (i, e) ∷ q
      → mgr.is_done ≡ false
      → 0 < mgr.pool.workers
      → is_blocked mgr.blocked ≡ false
      → Consistent objs s mgr
      → let (err, kernel) = handle_event objs e mgr.kernel in
        Consistent objs s (record mgr {
          kernel = kernel;
          pool = record mgr.pool { q = q; executed = mgr.pool.executed ++ ((i, e) ∷ []) };
          blocked = blocked_by i err;
          calls = set mgr.calls i (offered err);
        })
  worked-Consistent i e q mgr q_is d some_worker free h = record {
    kernel =
        ap (λ k. (handle_event objs e k).1) h.kernel
        ∙ sym (run_jobs-snoc objs i e mgr.pool.executed s);
    served =
        Served-snoc objs i e mgr.pool.executed s calls'
          (Served-kept objs mgr.pool.executed s mgr.calls calls'
            (λ j r.
              set_all (λ k o o'. SettledAs r o → SettledAs r o') mgr.calls i j awaiting
                (offered err) here (λ a. absurd a) (λ o ne a. a))
            h.served)
          (subst (SettledAs ((handle_event objs e (run_jobs objs mgr.pool.executed s)).0))
            (sym self) (ap (λ k. (handle_event objs e k).0) h.kernel));
    only = λ j a.
        ap (elem j) (ids-snoc i e mgr.pool.executed)
        ∙ elem-snoc j i (ids mgr.pool.executed)
        ∙ elim (set_all (λ k o o'. has_answer o' ≡ true → (i ≡ k) ⊎ (has_answer o ≡ true)) mgr.calls
            i j awaiting (offered err) here (λ b. inl refl) (λ o ne b. inr b) a) [
              | inl p ↦ rw ((nat_beq_iff j i).1 (sym p), if◌then◌else◌) refl
              | inr b ↦ rw (h.only j b) (if_same (nat_beq j i))
            ];
    waiting = λ d'. others (ids q) once.0 waits.1;
    once = once.1;
    ended = h.ended;
    over = h.over;
    busy = λ j a.
        elim (set_all
          (λ k o o'.
            is_offered_error o' ≡ true → (blocked_by i err ≡ some k) ⊎ (is_offered_error o ≡ true))
          mgr.calls i j awaiting (offered err) here (λ b. inl (sends err b)) (λ o ne b. inr b) a) [
            | inl p ↦ p
            | inr b ↦ let x = sym free ∙ ap is_blocked (h.busy j b) in absurd (ground arith)
          ];
    at_work = λ b. some_worker;
  }
    where
      err : Option EventError
      err = (handle_event objs e mgr.kernel).0

      calls' : List (Status B)
      calls' = set mgr.calls i (offered err)

      sends :
          (r : Option EventError)
          → is_offered_error {B = B} (some (offered r)) ≡ true
          → blocked_by i r ≡ some i
      sends none b = absurd (ground arith)
      sends (some e) b = refl

      once : Distinct (i ∷ ids q)
      once = subst (λ l. Distinct (ids l)) q_is h.once

      waits : All (IsAwaiting mgr.calls) (i ∷ ids q)
      waits = subst (λ l. All (IsAwaiting mgr.calls) (ids l)) q_is (h.waiting d)

      here : IsAwaiting mgr.calls i
      here = waits.0

      self : get_elem? calls' i ≡ some (offered err)
      self =
          get_elem?-set_self mgr.calls i (offered err)
            (get_elem?_lt_length mgr.calls i awaiting here)

      if_same : (b : Bool) → (if b then true else true) ≡ true
      if_same true = refl
      if_same false = refl

      others :
          (is : List ℕ)
          → elem i is ≡ false
          → All (IsAwaiting mgr.calls) is
          → All (IsAwaiting calls') is
      others [] out a = tt
      others (j ∷ is) out (a, rest) = elim (Bool-cases (nat_beq i j)) [
        | inl same ↦ absurd (let p = rw (same, elem) at out in ground arith)
        | inr other ↦ (
          get_elem?-set_ne mgr.calls i j (offered err)
                (λ p. let x = sym other ∙ (nat_beq_iff i j).1 p in ground arith)
              ∙ a,
          others is (rw (other, elem) at out) rest,
        )
      ]

  pub work-Consistent :
      (k : ℕ) (q : List (ℕ × Event B)) (mgr mgr' : Manager S B)
      → mgr.pool.workers ≡ k
      → mgr.pool.q ≡ q
      → is_blocked mgr.blocked ≡ false
      → answer objs q (take_job k q mgr.pool) mgr ≡ some mgr'
      → Consistent objs s mgr
      → Consistent objs s mgr'
  work-Consistent zero [] mgr mgr' w q_is f a h = absurd (not_some mgr' a)
  work-Consistent zero (j ∷ q) mgr mgr' w q_is f a h = absurd (not_some mgr' a)
  work-Consistent (suc k) [] mgr mgr' w q_is f a h = absurd (not_some mgr' a)
  work-Consistent (suc k) ((i, e) ∷ q) mgr mgr' w q_is f a h =
      subst (Consistent objs s) (some_same a)
        (worked-Consistent i e q mgr q_is not_done (omega (arith, w)) f h)
    where
      not_done : mgr.is_done ≡ false
      not_done = elim (Bool-cases mgr.is_done) [
        | inl d ↦ let p = sym w ∙ h.over d in absurd (ground arith)
        | inr d ↦ d
      ]
