-- ===== src/Bpf/Calls/Accept.antt =====
-- The event loop keeps the invariant of the calls.
use mathlib.Core.Path.{subst}
use udplb.Base.{
  ℕ, get_elem?-set_self, get_elem?_lt_length, ◌≡◌, refl, sym, ap, ◌∙◌, Bool, true, false, ◌||◌,
  Option, none, some, some_same, List, [], ◌∷◌, ◌++◌, nat_beq, nat_beq_iff, length, get_elem?, set,
  if◌then◌else◌, elem, Distinct, Distinct-snoc, All, arith, ltb, Bool-cases, not_some, else_some,
  then_some, inl, inr,
}
use udplb.WorkerPool.{Pool, send_job}
use udplb.Bpf.{Objects, Event}
use udplb.Bpf.Calls.{
  Status, sending, awaiting, offered, answered, aborted, panicked, q_size, Manager, accept_from,
  queued,
}
use udplb.Bpf.Calls.Frame.{
  ids, ids-snoc, SettledAs, has_answer, is_offered_error, Served-kept, IsAwaiting, set_all,
}
use udplb.Bpf.Calls.Linear.{Consistent}

module _ {S B : Type 0} (objs : Objects S B) (s : S) where
  All-IsAwaiting_snoc :
      (is : List ℕ) (calls calls' : List (Status B)) (i : ℕ)
      → ((j : ℕ) → IsAwaiting calls j → IsAwaiting calls' j)
      → All (IsAwaiting calls) is
      → IsAwaiting calls' i
      → All (IsAwaiting calls') (is ++ (i ∷ []))
  All-IsAwaiting_snoc [] calls calls' i k h a = (a, tt)
  All-IsAwaiting_snoc (j ∷ is) calls calls' i k (b, h) a =
      (k j b, All-IsAwaiting_snoc is calls calls' i k h a)

  not_queued :
      (is : List ℕ) (calls : List (Status B)) (i : ℕ) (e : Event B)
      → get_elem? calls i ≡ some (sending e)
      → All (IsAwaiting calls) is
      → elem i is ≡ false
  not_queued [] calls i e at_i h = refl
  not_queued (j ∷ is) calls i e at_i (b, h) = elim (Bool-cases (nat_beq i j)) [
    | inl same ↦
        let p = sym at_i ∙ ap (λ k. get_elem? calls k) ((nat_beq_iff i j).0 same) ∙ b in
        absurd (ground arith)
    | inr other ↦ rw (other, if◌then◌else◌) (not_queued is calls i e at_i h)
  ]

  queued-Consistent :
      (i : ℕ) (e : Event B) (mgr : Manager S B)
      → get_elem? mgr.calls i ≡ some (sending e)
      → mgr.is_done ≡ false
      → Consistent objs s mgr
      → Consistent objs s (record mgr {
        pool = record mgr.pool { q = mgr.pool.q ++ ((i, e) ∷ []) };
        calls = set mgr.calls i awaiting;
      })
  queued-Consistent i e mgr at_i d h = record {
    kernel = h.kernel;
    served =
        Served-kept objs mgr.pool.executed s mgr.calls (set mgr.calls i awaiting)
          (λ j r.
            set_all (λ k o o'. SettledAs r o → SettledAs r o') mgr.calls i j (sending e) awaiting
              at_i (λ a. absurd a) (λ o ne a. a))
          h.served;
    only = λ j a. h.only j (
        set_all (λ k o o'. has_answer o' ≡ true → has_answer o ≡ true) mgr.calls i j (sending e)
          awaiting at_i (λ b. absurd (ground arith)) (λ o ne b. b) a);
    waiting = λ d'.
        subst (All (IsAwaiting (set mgr.calls i awaiting))) (sym (ids-snoc i e mgr.pool.q)) (
          All-IsAwaiting_snoc (ids mgr.pool.q) mgr.calls (set mgr.calls i awaiting) i
            (λ j.
              set_all (λ k o o'. o ≡ some awaiting → o' ≡ some awaiting) mgr.calls i j (sending e)
                awaiting at_i (λ b. refl) (λ o ne b. b))
            (h.waiting d)
            (get_elem?-set_self mgr.calls i awaiting
              (get_elem?_lt_length mgr.calls i (sending e) at_i)));
    once = subst Distinct (sym (ids-snoc i e mgr.pool.q)) (
        Distinct-snoc i (ids mgr.pool.q)
          (not_queued (ids mgr.pool.q) mgr.calls i e at_i (h.waiting d)) h.once);
    ended = h.ended;
    over = h.over;
    busy = λ j a. h.busy j (
        set_all (λ k o o'. is_offered_error o' ≡ true → is_offered_error o ≡ true) mgr.calls i j
          (sending e) awaiting at_i (λ b. absurd (ground arith)) (λ o ne b. b) a);
    at_work = h.at_work;
  }

  not_done :
      (mgr : Manager S B) → Consistent objs s mgr → mgr.loop_ended ≡ false → mgr.is_done ≡ false
  not_done mgr h e = elim (Bool-cases mgr.is_done) [
    | inl d ↦ let p = sym e ∙ h.ended d in absurd (ground arith)
    | inr d ↦ d
  ]

  pub accept-Consistent :
      (i : ℕ) (o : Option (Status B)) (mgr mgr' : Manager S B)
      → get_elem? mgr.calls i ≡ o
      → accept_from i o mgr ≡ some mgr'
      → Consistent objs s mgr
      → Consistent objs s mgr'
  unfolding send_job
  accept-Consistent i none mgr mgr' at_i a h = absurd (not_some mgr' a)
  accept-Consistent i (some awaiting) mgr mgr' at_i a h = absurd (not_some mgr' a)
  accept-Consistent i (some (offered r)) mgr mgr' at_i a h = absurd (not_some mgr' a)
  accept-Consistent i (some (answered r)) mgr mgr' at_i a h = absurd (not_some mgr' a)
  accept-Consistent i (some aborted) mgr mgr' at_i a h = absurd (not_some mgr' a)
  accept-Consistent i (some panicked) mgr mgr' at_i a h = absurd (not_some mgr' a)
  accept-Consistent i (some (sending e)) mgr mgr' at_i a h =
      let (off, a1) = else_some (mgr.loop_ended || mgr.event_ch_closed) _ mgr' a in
      from_pool (send_job q_size (i, e) mgr.pool) refl a1 off
    where
      or_off : (b c : Bool) → (b || c) ≡ false → b ≡ false
      or_off true c p = p
      or_off false c p = refl

      from_pool :
          (o : Option (Pool (ℕ × Event B)))
          → send_job q_size (i, e) mgr.pool ≡ o
          → queued i o mgr ≡ some mgr'
          → (mgr.loop_ended || mgr.event_ch_closed) ≡ false
          → Consistent objs s mgr'
      from_pool none p q off = absurd (not_some mgr' q)
      from_pool (some pool) p q off =
          let (open_q, p1) = else_some mgr.pool.q_closed _ pool p in
          let (room, p2) = then_some (ltb (length mgr.pool.q) q_size) _ pool p1 in
          subst (Consistent objs s)
            (ap (λ x. record mgr { pool = x; calls = set mgr.calls i awaiting }) p2 ∙ some_same q)
            (queued-Consistent i e mgr at_i
              (not_done mgr h (or_off mgr.loop_ended mgr.event_ch_closed off)) h)
