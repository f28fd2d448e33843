-- ===== src/Bpf/Calls/Linear.antt =====
-- The invariant of the calls, kept by the steps that change the calls only.
use udplb.Base.{
  ℕ, zero, suc, ◌<◌, ◌≡◌, ◌≢◌, Bool, true, false, Option, none, some, List, [], ◌∷◌, ◌++◌,
  get_elem?, set, elem, Distinct, All, arith,
}
use udplb.Bpf.{Objects, Event, EventError}
use udplb.Bpf.Calls.{Status, sending, awaiting, panicked, first_status, Manager, is_blocked, submit}
use udplb.Bpf.Calls.Frame.{
  ids, SettledAs, has_answer, is_offered_error, run_jobs, Served, Served-kept, Keeps, IsAwaiting,
  set_all,
}

module _ {S B : Type 0} (objs : Objects S B) (s : S) where
  -- What every reachable manager looks like.
  pub record Consistent (mgr : Manager S B) : Type 0 where
    pub kernel : mgr.kernel ≡ run_jobs objs mgr.pool.executed s
    pub served : Served objs mgr.pool.executed s mgr.calls
    pub only :
        (i : ℕ) → has_answer (get_elem? mgr.calls i) ≡ true → elem i (ids mgr.pool.executed) ≡ true
    pub waiting : mgr.is_done ≡ false → All (IsAwaiting mgr.calls) (ids mgr.pool.q)
    pub once : Distinct (ids mgr.pool.q)
    pub ended : mgr.is_done ≡ true → mgr.loop_ended ≡ true
    pub over : mgr.is_done ≡ true → mgr.pool.workers ≡ 0
    pub busy : (i : ℕ) → is_offered_error (get_elem? mgr.calls i) ≡ true → mgr.blocked ≡ some i
    pub at_work : is_blocked mgr.blocked ≡ true → 0 < mgr.pool.workers

  -- A change of the calls that gives no new answer.
  pub record Recalls (mgr : Manager S B) (calls' : List (Status B)) (blocked' : Option ℕ)
      : Type 0 where
    pub kept : Keeps objs mgr.calls calls'
    pub old :
        (i : ℕ) → has_answer (get_elem? calls' i) ≡ true → has_answer (get_elem? mgr.calls i) ≡ true
    pub wait : mgr.is_done ≡ false → (i : ℕ) → IsAwaiting mgr.calls i → IsAwaiting calls' i
    pub busy : (i : ℕ) → is_offered_error (get_elem? calls' i) ≡ true → blocked' ≡ some i
    pub still : is_blocked blocked' ≡ true → is_blocked mgr.blocked ≡ true

  pub recalled :
      (mgr : Manager S B) (calls' : List (Status B)) (blocked' : Option ℕ) (closed : Bool)
      → Recalls mgr calls' blocked'
      → Consistent mgr
      → Consistent (record mgr { calls = calls'; blocked = blocked'; event_ch_closed = closed })
  recalled mgr calls' blocked' closed c h = record {
    kernel = h.kernel;
    served = Served-kept objs mgr.pool.executed s mgr.calls calls' c.kept h.served;
    only = λ i e. h.only i (c.old i e);
    waiting = λ d. all_awaiting (ids mgr.pool.q) (c.wait d) (h.waiting d);
    once = h.once;
    ended = h.ended;
    over = h.over;
    busy = c.busy;
    at_work = λ b. h.at_work (c.still b);
  }
    where
      all_awaiting :
          (is : List ℕ)
          → ((i : ℕ) → IsAwaiting mgr.calls i → IsAwaiting calls' i)
          → All (IsAwaiting mgr.calls) is
          → All (IsAwaiting calls') is
      all_awaiting [] w a = tt
      all_awaiting (i ∷ is) w (a, rest) = (w i a, all_awaiting is w rest)

  -- A new call is settled as nothing, and has no answer.
  submitted :
      (P : Option (Status B) → Option (Status B) → Type 0) (e : Event B) (closed : Bool)
      (calls : List (Status B)) (i : ℕ)
      → ((o : Option (Status B)) → P o o)
      → P none (some panicked)
      → P none (some (sending e))
      → P (get_elem? calls i) (get_elem? (calls ++ (first_status closed e ∷ [])) i)
  submitted P e true [] zero same p q = p
  submitted P e false [] zero same p q = q
  submitted P e closed [] (suc i) same p q = same none
  submitted P e closed (c ∷ calls) zero same p q = same (some c)
  submitted P e closed (c ∷ calls) (suc i) same p q = submitted P e closed calls i same p q

  pub submit-Consistent :
      (e : Event B) (mgr : Manager S B) → Consistent mgr → Consistent (submit e mgr)
  unfolding submit
  submit-Consistent e mgr h =
      recalled mgr (mgr.calls ++ (first_status mgr.event_ch_closed e ∷ [])) mgr.blocked
        mgr.event_ch_closed
        (record {
          kept = λ i r.
              submitted (λ o o'. SettledAs r o → SettledAs r o') e mgr.event_ch_closed mgr.calls i
                (λ o a. a) (λ a. absurd a) (λ a. absurd a);
          old = λ i.
              submitted (λ o o'. has_answer o' ≡ true → has_answer o ≡ true) e mgr.event_ch_closed
                mgr.calls i (λ o a. a) (λ a. absurd (ground arith)) (λ a. absurd (ground arith));
          wait = λ d i.
              submitted (λ o o'. o ≡ some awaiting → o' ≡ some awaiting) e mgr.event_ch_closed
                mgr.calls i (λ o a. a) (λ a. absurd (ground arith)) (λ a. absurd (ground arith));
          busy = λ i b. h.busy i (
              submitted (λ o o'. is_offered_error o' ≡ true → is_offered_error o ≡ true) e
                mgr.event_ch_closed mgr.calls i (λ o a. a) (λ a. absurd (ground arith))
                (λ a. absurd (ground arith)) b);
          still = λ b. b;
        })
        h

  pub clash : {b : Bool} → b ≡ false → b ≡ true → ⊥
  clash p q = ground arith

  -- A call that is not about to send is set to a status that settles what it settled.
  pub record Replaces (mgr : Manager S B) (i : ℕ) (old new : Status B) (blocked' : Option ℕ)
      : Type 0 where
    pub at_i : get_elem? mgr.calls i ≡ some old
    pub settles : (r : Option EventError) → SettledAs r (some old) → SettledAs r (some new)
    pub had : has_answer (some new) ≡ true → has_answer (some old) ≡ true
    pub waits : mgr.is_done ≡ false → some old ≢ some awaiting
    pub no_error : is_offered_error (some new) ≡ false
    pub others :
        (j : ℕ) → i ≢ j → is_offered_error (get_elem? mgr.calls j) ≡ true → blocked' ≡ some j
    pub still : is_blocked blocked' ≡ true → is_blocked mgr.blocked ≡ true

  pub replaced :
      (mgr : Manager S B) (i : ℕ) (old new : Status B) (blocked' : Option ℕ)
      → Replaces mgr i old new blocked'
      → Consistent mgr
      → Consistent (record mgr { calls = set mgr.calls i new; blocked = blocked' })
  replaced mgr i old new blocked' c h =
      recalled mgr (set mgr.calls i new) blocked' mgr.event_ch_closed
        (record {
          kept = λ j r.
              set_all (λ k o o'. SettledAs r o → SettledAs r o') mgr.calls i j old new c.at_i
                (c.settles r) (λ o ne a. a);
          old = λ j.
              set_all (λ k o o'. has_answer o' ≡ true → has_answer o ≡ true) mgr.calls i j old new
                c.at_i c.had (λ o ne a. a);
          wait = λ d j.
              set_all (λ k o o'. o ≡ some awaiting → o' ≡ some awaiting) mgr.calls i j old new
                c.at_i (λ e. absurd (c.waits d e)) (λ o ne a. a);
          busy = λ j b.
              let (err, ne) =
                set_all
                  (λ k o o'. is_offered_error o' ≡ true → (is_offered_error o ≡ true) × (i ≢ k))
                  mgr.calls i j old new c.at_i (λ a. absurd (clash c.no_error a))
                  (λ o ne a. (a, ne)) b in
              c.others j ne err;
          still = c.still;
        })
        h
