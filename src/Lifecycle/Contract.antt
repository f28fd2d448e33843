-- ===== src/Lifecycle/Contract.antt =====
-- `Close` of the WAL, the DVDS and the monitors on every state that calls can lead to, and that of the
-- clusters.
use udplb.Base.{
  true, false, Option, none, some, if◌then◌else◌, ◌≡◌, refl, arith, Bool-cases, ◌⊎◌, inl, inr,
}
use mathlib.Core.Path.{subst}
use udplb.Lifecycle.{
  LifecycleError, already_closed, runnable_must_be_running_to_be_closed, Runnable, new_runnable,
  Outcome, blocks, panics, returned, run, close, begin_close, end_close,
}

-- The states that `Run` and `Close` lead to, in any order and number, whatever `Run` meets.
pub data Reachable : Runnable → Type 0 where
  created : Reachable new_runnable
  ran :
      (fault e : Option LifecycleError) (r r' : Runnable)
      → Reachable r
      → run fault r ≡ returned e r'
      → Reachable r'
  stopped :
      (e : Option LifecycleError) (r r' : Runnable)
      → Reachable r
      → close r ≡ returned e r'
      → Reachable r'

pub record IsSound (r : Runnable) : Type 0 where
  pub unlocked : r.locked ≡ false
  pub once : r.terminated ≡ r.closed
  pub apart : (if r.running then r.closed else false) ≡ false

after : Outcome → Runnable → Runnable
after blocks d = d
after panics d = d
after (returned e r) d = r

run-IsSound :
    (fault : Option LifecycleError) (r : Runnable) → IsSound r → IsSound (after (run fault r) r)
unfolding run after
run-IsSound none r h = record { unlocked = ground arith; once = ground arith; apart = ground arith }
run-IsSound (some e) r h = record {
  unlocked = ground arith;
  once = ground arith;
  apart = ground arith;
}

close-IsSound : (r : Runnable) → IsSound r → IsSound (after (close r) r)
unfolding close after
close-IsSound r h = record { unlocked = ground arith; once = ground arith; apart = ground arith }

Reachable-IsSound : (r : Runnable) → Reachable r → IsSound r
unfolding after
Reachable-IsSound _ created = record { unlocked = refl; once = refl; apart = refl }
Reachable-IsSound r' (ran fault e r _ p q) =
    subst (λ o. IsSound (after o r)) q (run-IsSound fault r (Reachable-IsSound r p))
Reachable-IsSound r' (stopped e r _ p q) =
    subst (λ o. IsSound (after o r)) q (close-IsSound r (Reachable-IsSound r p))

-- What `Close` does, and what a second one does after it.
pub record Stops (r : Runnable) : Type 0 where
  pub left : Runnable
  pub first : close r ≡ returned none left
  pub is_closed : left.closed ≡ true
  pub second : close left ≡ returned (some runnable_must_be_running_to_be_closed) left

closing : Runnable → Runnable
closing r = record r { running = false; closed = true; terminated = true }

IsSound-Stops : (r : Runnable) → IsSound r → r.running ≡ true → Stops r
unfolding close closing
IsSound-Stops r h e =
    let unlocked = h.unlocked in
    let once = h.once in
    let apart = h.apart in
    record { left = closing r; first = ground arith; is_closed = refl; second = ground arith }

idle :
    (r : Runnable)
    → IsSound r
    → r.running ≡ false
    → close r ≡ returned (some runnable_must_be_running_to_be_closed) r
unfolding close
idle r h e = let unlocked = h.unlocked in ground arith

-- From every state that calls of `Run` and `Close` lead to, `Close` neither waits for ever nor panics.
-- If the runnable runs, it returns no error and closes it, and a second `Close` then returns
-- `ErrRunnableMustBeRunningToBeClosed`; if it does not run, `Close` returns that error and changes
-- nothing. So it never returns `ErrAlreadyClosed`, which `DoneCloser` asks of a closed runnable.
pub close-Reachable :
    (r : Runnable)
    → Reachable r
    → ((r.running ≡ true) × Stops r)
      ⊎ ((r.running ≡ false) × (close r ≡ returned (some runnable_must_be_running_to_be_closed) r))
close-Reachable r h = elim (Bool-cases r.running) [
  | inl e ↦ inl (e, IsSound-Stops r (Reachable-IsSound r h) e)
  | inr e ↦ inr (e, idle r (Reachable-IsSound r h) e)
]

-- `Close` of a cluster in two interleavings: a second `Close` that begins while the first one waits
-- panics; one that begins after it has ended returns `ErrAlreadyClosed`.
begin_close-twice :
    (r : Runnable)
    → r.locked ≡ false
    → r.running ≡ true
    → r.closed ≡ false
    → r.terminated ≡ false
    → (waiting : Runnable) × (ended : Runnable) × (begin_close r ≡ returned none waiting)
      × (begin_close waiting ≡ panics)
      × (end_close waiting ≡ returned none ended)
      × (begin_close ended ≡ returned (some already_closed) ended)
unfolding begin_close end_close closing
begin_close-twice r unlocked busy fresh going = (
  record r { terminated = true },
  closing r,
  ground arith,
  ground arith,
  ground arith,
  ground arith,
)
