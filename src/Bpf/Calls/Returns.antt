-- ===== src/Bpf/Calls/Returns.antt =====
-- A call that returns, by its answer or by `doneCh`, and the closing of `eventCh` keep the invariant.
use mathlib.Core.Path.{subst}
use udplb.Base.{
  ℕ, zero, suc, ◌≡◌, refl, sym, ap, ◌∙◌, true, ◌&&◌, not, Option, none, some, some_same, List, [],
  ◌∷◌, map, get_elem?, arith, not_some, then_some,
}
use udplb.Bpf.{Objects, Event, EventError}
use udplb.Bpf.Calls.{
  Status, sending, awaiting, offered, answered, aborted, panicked, hang_up, Manager, is_blocked,
  released, receive_from, abort_call, abort_from, close_event_ch,
}
use udplb.Bpf.Calls.Frame.{SettledAs, has_answer, is_offered_error}
use udplb.Bpf.Calls.Linear.{Consistent, Replaces, recalled, replaced, clash}

module _ {S B : Type 0} (objs : Objects S B) (s : S) where
  -- Done, the worker sends no error any more.
  not_over :
      (mgr : Manager S B)
      → Consistent objs s mgr
      → mgr.is_done ≡ true
      → is_blocked mgr.blocked ≡ true
      → ⊥
  not_over mgr h d b = omega (arith, h.over d, h.at_work b)

  receive_answer :
      (i : ℕ) (r : Option EventError) (mgr : Manager S B)
      → get_elem? mgr.calls i ≡ some (offered r)
      → Consistent objs s mgr
      → Replaces objs s mgr i (offered r) (answered r) (released r mgr.blocked)
  receive_answer i none mgr at_i h = record {
    at_i = at_i;
    settles = λ r a. a;
    had = λ a. refl;
    waits = λ d p. ground arith;
    no_error = refl;
    others = λ j ne b. h.busy j b;
    still = λ b. b;
  }
  receive_answer i (some e) mgr at_i h = record {
    at_i = at_i;
    settles = λ r a. a;
    had = λ a. refl;
    waits = λ d p. ground arith;
    no_error = refl;
    others =
        λ j ne b. absurd (ne (some_same (sym (h.busy i (ap is_offered_error at_i)) ∙ h.busy j b)));
    still = λ b. absurd (ground arith);
  }

  pub receive-Consistent :
      (i : ℕ) (o : Option (Status B)) (mgr mgr' : Manager S B)
      → get_elem? mgr.calls i ≡ o
      → receive_from i o mgr ≡ some mgr'
      → Consistent objs s mgr
      → Consistent objs s mgr'
  receive-Consistent i none mgr mgr' at_i a h = absurd (not_some mgr' a)
  receive-Consistent i (some (sending e)) mgr mgr' at_i a h = absurd (not_some mgr' a)
  receive-Consistent i (some awaiting) mgr mgr' at_i a h = absurd (not_some mgr' a)
  receive-Consistent i (some (answered r)) mgr mgr' at_i a h = absurd (not_some mgr' a)
  receive-Consistent i (some aborted) mgr mgr' at_i a h = absurd (not_some mgr' a)
  receive-Consistent i (some panicked) mgr mgr' at_i a h = absurd (not_some mgr' a)
  receive-Consistent i (some (offered r)) mgr mgr' at_i a h =
      subst (Consistent objs s) (some_same a) (
        replaced objs s mgr i (offered r) (answered r) (released r mgr.blocked)
          (receive_answer i r mgr at_i h) h)

  aborted_from :
      (i : ℕ) (old : Status B) (mgr mgr' : Manager S B)
      → abort_call i mgr ≡ some mgr'
      → (mgr.is_done ≡ true → Replaces objs s mgr i old aborted mgr.blocked)
      → Consistent objs s mgr
      → Consistent objs s mgr'
  aborted_from i old mgr mgr' a c h =
      let (d, e) = then_some mgr.is_done _ mgr' a in
      subst (Consistent objs s) e (replaced objs s mgr i old aborted mgr.blocked (c d) h)

  pub abort-Consistent :
      (i : ℕ) (o : Option (Status B)) (mgr mgr' : Manager S B)
      → get_elem? mgr.calls i ≡ o
      → abort_from i o mgr ≡ some mgr'
      → Consistent objs s mgr
      → Consistent objs s mgr'
  abort-Consistent i none mgr mgr' at_i a h = absurd (not_some mgr' a)
  abort-Consistent i (some (sending e)) mgr mgr' at_i a h = absurd (not_some mgr' a)
  abort-Consistent i (some (answered r)) mgr mgr' at_i a h = absurd (not_some mgr' a)
  abort-Consistent i (some aborted) mgr mgr' at_i a h = absurd (not_some mgr' a)
  abort-Consistent i (some panicked) mgr mgr' at_i a h = absurd (not_some mgr' a)
  abort-Consistent i (some awaiting) mgr mgr' at_i a h =
      aborted_from i awaiting mgr mgr' a
        (λ d. record {
          at_i = at_i;
          settles = λ r b. absurd b;
          had = λ b. absurd (ground arith);
          waits = λ off p. clash objs s off d;
          no_error = refl;
          others = λ j ne b. h.busy j b;
          still = λ b. b;
        })
        h
  abort-Consistent i (some (offered none)) mgr mgr' at_i a h =
      aborted_from i (offered none) mgr mgr' a
        (λ d. record {
          at_i = at_i;
          settles = λ r b. sym b;
          had = λ b. refl;
          waits = λ off p. clash objs s off d;
          no_error = refl;
          others = λ j ne b. h.busy j b;
          still = λ b. b;
        })
        h
  abort-Consistent i (some (offered (some e))) mgr mgr' at_i a h =
      let (d, _) = then_some mgr.is_done _ mgr' a in
      absurd (not_over mgr h d (ap is_blocked (h.busy i (ap is_offered_error at_i))))

  hung_up :
      (P : Option (Status B) → Option (Status B) → Type 0) (calls : List (Status B)) (i : ℕ)
      → ((o : Option (Status B)) → P o o)
      → ((e : Event B) → P (some (sending e)) (some panicked))
      → P (get_elem? calls i) (get_elem? (map hang_up calls) i)
  hung_up P [] i same p = same none
  hung_up P (sending e ∷ calls) zero same p = p e
  hung_up P (awaiting ∷ calls) zero same p = same (some awaiting)
  hung_up P (offered r ∷ calls) zero same p = same (some (offered r))
  hung_up P (answered r ∷ calls) zero same p = same (some (answered r))
  hung_up P (aborted ∷ calls) zero same p = same (some aborted)
  hung_up P (panicked ∷ calls) zero same p = same (some panicked)
  hung_up P (c ∷ calls) (suc i) same p = hung_up P calls i same p

  pub close-Consistent :
      (mgr mgr' : Manager S B)
      → close_event_ch mgr ≡ some mgr'
      → Consistent objs s mgr
      → Consistent objs s mgr'
  unfolding close_event_ch
  close-Consistent mgr mgr' a h =
      let (c, e) = then_some (mgr.pool.terminate_closed && not mgr.event_ch_closed) _ mgr' a in
      subst (Consistent objs s) e (
        recalled objs s mgr (map hang_up mgr.calls) mgr.blocked true
          (record {
            kept = λ i r.
                hung_up (λ o o'. SettledAs r o → SettledAs r o') mgr.calls i (λ o b. b)
                  (λ f b. absurd b);
            old = λ i.
                hung_up (λ o o'. has_answer o' ≡ true → has_answer o ≡ true) mgr.calls i (λ o b. b)
                  (λ f b. absurd (ground arith));
            wait = λ d i.
                hung_up (λ o o'. o ≡ some awaiting → o' ≡ some awaiting) mgr.calls i (λ o b. b)
                  (λ f b. absurd (ground arith));
            busy = λ i b. h.busy i (
                hung_up (λ o o'. is_offered_error o' ≡ true → is_offered_error o ≡ true) mgr.calls i
                  (λ o b. b) (λ f b. absurd (ground arith)) b);
            still = λ b. b;
          })
          h)
