-- ===== src/WorkerPool.antt =====
-- internal/util/workerpool.go: workers that run the jobs of a channel until it is closed, or until they
-- are told to terminate and find it empty. The steps of the workers and of the others interleave in any
-- way; taking a job and running it is one step, and `executed` records the jobs in the order taken.
-- `none` is a step that has to wait, or a panic.
pub mod Drain
mod Tests
use udplb.Base.{
  ℕ, zero, suc, ◌+◌, Bool, true, false, ◌||◌, Option, none, some, List, [], ◌∷◌, ◌++◌, ltb,
  if◌then◌else◌, length,
}

-- `workers` is the number of goroutines that did not return; `doneCh` is closed when there is none.
pub record Pool {ℓ} (J : Type ℓ) : Type ℓ where
  pub q : List J
  pub q_closed : Bool
  pub terminate_closed : Bool
  pub workers : ℕ
  pub executed : List J

module _ {ℓ} {J : Type ℓ} where
  abbrev pub new_pool : ℕ → Pool J
  new_pool n = record {
    q = [];
    q_closed = false;
    terminate_closed = false;
    workers = n;
    executed = [];
  }

  -- A send into the buffer of the queue: on a closed channel it panics, and without room it waits.
  unfoldable pub send_job : ℕ → J → Pool J → Option (Pool J)
  send_job capacity f p =
      if p.q_closed
      then none
      else if ltb (length p.q) capacity
      then some (record p { q = p.q ++ (f ∷ []) })
      else none

  abbrev pub hand_to : ℕ → List J → J → Pool J → Option (Pool J)
  hand_to zero q f p = none
  hand_to (suc n) [] f p = some (record p { executed = p.executed ++ (f ∷ []) })
  hand_to (suc n) (g ∷ q) f p = none

  -- A send to a worker that waits in its outer select, as every send is if the queue has no buffer: the
  -- worker takes the job at once.
  unfoldable pub hand_over : J → Pool J → Option (Pool J)
  hand_over f p = if p.q_closed then none else hand_to p.workers p.q f p

  unfoldable pub close_q : Pool J → Option (Pool J)
  close_q p = if p.q_closed then none else some (record p { q_closed = true })

  -- `Close`: the second `close(w.terminateCh)` panics.
  unfoldable pub close_pool : Pool J → Option (Pool J)
  close_pool p = if p.terminate_closed then none else some (record p { terminate_closed = true })

  abbrev pub take_job : ℕ → List J → Pool J → Option (Pool J)
  take_job zero q p = none
  take_job (suc n) [] p = none
  take_job (suc n) (f ∷ q) p = some (record p { q = q; executed = p.executed ++ (f ∷ []) })

  -- A worker takes a job, in the outer select or in the one behind `<-terminateCh`, and runs it.
  unfoldable pub run_job : Pool J → Option (Pool J)
  run_job p = take_job p.workers p.q p

  abbrev pub leave : ℕ → List J → Pool J → Option (Pool J)
  leave zero q p = none
  leave (suc n) [] p =
      if p.q_closed || p.terminate_closed then some (record p { workers = n }) else none
  leave (suc n) (f ∷ q) p = none

  -- A worker returns: the queue is empty, and it is closed or the worker was told to terminate.
  unfoldable pub stop_worker : Pool J → Option (Pool J)
  stop_worker p = leave p.workers p.q p
