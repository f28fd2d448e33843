-- ===== src/Bpf/Calls.antt =====
-- The calls of the data structure manager (internal/adapter/bpf/manager.go) and the goroutines that
-- serve them: a call sends its event over `eventCh` and awaits an error or `doneCh`; the event loop puts
-- the event on the queue of a worker pool with one worker, which handles it. The worker waits until its
-- error is received, but `close(errCh)` waits for no one: a call whose event gave no error may come
-- back to `await` when `doneCh` is closed too, and the runtime chooses. Calls, loop, worker and
-- `Close` interleave in any way. The pool for the assignments only delays `doneCh`, and the loop may end
-- at any time, since the assignment channel may be closed. `none` is a step that cannot happen.
pub mod Step
pub mod Frame
pub mod Linear
pub mod Returns
pub mod Accept
pub mod Work
pub mod Order
mod Tests
use udplb.Base.{
  ℕ, Bool, true, false, ◌||◌, ◌&&◌, not, Option, none, some, List, [], ◌∷◌, ◌++◌, map, nat_beq,
  get_elem?, set, if◌then◌else◌,
}
use udplb.WorkerPool.{Pool, new_pool, send_job, run_job, close_pool, stop_worker}
use udplb.Bpf.{Objects, Event, EventError, handle_event}

-- A call waits to send, awaits the answer, can have it (`errCh` is closed, or the worker is sending the
-- error on it), or has returned or panicked.
pub data Status (B : Type 0) : Type 0 where
  sending : Event B → Status B
  awaiting : Status B
  offered : Option EventError → Status B
  answered : Option EventError → Status B
  aborted panicked : Status B

-- A call is known by its place in `calls`; `blocked` is the call that the worker is sending an error to.
pub record Manager (S B : Type 0) : Type 0 where
  pub kernel : S
  pub pool : Pool (ℕ × Event B)
  pub blocked : Option ℕ
  pub loop_ended : Bool
  pub event_ch_closed : Bool
  pub is_done : Bool
  pub calls : List (Status B)

abbrev pub q_size : ℕ
q_size = 10

abbrev pub is_blocked : Option ℕ → Bool
is_blocked none = false
is_blocked (some i) = true

-- `if err != nil { e.errCh <- err }`.
abbrev pub blocked_by : ℕ → Option EventError → Option ℕ
blocked_by i none = none
blocked_by i (some e) = some i

-- A received error lets the worker go on.
abbrev pub released : Option EventError → Option ℕ → Option ℕ
released none blocked = blocked
released (some e) blocked = none

-- `mgr.eventCh <- e`: on a closed channel it panics.
abbrev pub first_status : {B : Type 0} → Bool → Event B → Status B
first_status closed e = if closed then panicked else sending e

-- A send that waits panics when its channel is closed.
abbrev pub hang_up : {B : Type 0} → Status B → Status B
hang_up (sending e) = panicked
hang_up status = status

module _ {S B : Type 0} where
  abbrev pub new_manager : S → Manager S B
  new_manager s = record {
    kernel = s;
    pool = new_pool 1;
    blocked = none;
    loop_ended = false;
    event_ch_closed = false;
    is_done = false;
    calls = [];
  }

  unfoldable pub submit : Event B → Manager S B → Manager S B
  submit e mgr = record mgr { calls = mgr.calls ++ (first_status mgr.event_ch_closed e ∷ []) }

  abbrev pub put_pool : Option (Pool (ℕ × Event B)) → Manager S B → Option (Manager S B)
  put_pool none mgr = none
  put_pool (some pool) mgr = some (record mgr { pool = pool })

  abbrev pub queued : ℕ → Option (Pool (ℕ × Event B)) → Manager S B → Option (Manager S B)
  queued i none mgr = none
  queued i (some pool) mgr = some (record mgr { pool = pool; calls = set mgr.calls i awaiting })

  -- The event loop receives what call `i` sends.
  abbrev pub accept_from : ℕ → Option (Status B) → Manager S B → Option (Manager S B)
  accept_from i (some (sending e)) mgr =
      if mgr.loop_ended || mgr.event_ch_closed
      then none
      else queued i (send_job q_size (i, e) mgr.pool) mgr
  accept_from i _ mgr = none

  unfoldable pub accept : ℕ → Manager S B → Option (Manager S B)
  unfolding send_job
  accept i mgr = accept_from i (get_elem? mgr.calls i) mgr

  -- `close(mgr.terminateCh)`, which the loop and the pool share.
  unfoldable pub terminate : Manager S B → Option (Manager S B)
  unfolding close_pool
  terminate mgr = put_pool (close_pool mgr.pool) mgr

  unfoldable pub end_loop : Manager S B → Manager S B
  end_loop mgr = record mgr { loop_ended = true }

  unfoldable pub stop : Manager S B → Option (Manager S B)
  unfolding stop_worker
  stop mgr = if is_blocked mgr.blocked then none else put_pool (stop_worker mgr.pool) mgr

  -- `close(mgr.doneCh)`, when the loop ended and the pool is done.
  unfoldable pub finish : Manager S B → Option (Manager S B)
  finish mgr =
      if mgr.loop_ended && nat_beq mgr.pool.workers 0
      then some (record mgr { is_done = true })
      else none

  abbrev pub receive_from : ℕ → Option (Status B) → Manager S B → Option (Manager S B)
  receive_from i (some (offered r)) mgr =
      some (record mgr { blocked = released r mgr.blocked; calls = set mgr.calls i (answered r) })
  receive_from i _ mgr = none

  -- `await` of call `i` receives the error, or sees `errCh` closed.
  unfoldable pub receive : ℕ → Manager S B → Option (Manager S B)
  receive i mgr = receive_from i (get_elem? mgr.calls i) mgr

  abbrev pub abort_call : ℕ → Manager S B → Option (Manager S B)
  abort_call i mgr =
      if mgr.is_done then some (record mgr { calls = set mgr.calls i aborted }) else none

  abbrev pub abort_from : ℕ → Option (Status B) → Manager S B → Option (Manager S B)
  abort_from i (some awaiting) mgr = abort_call i mgr
  abort_from i (some (offered r)) mgr = abort_call i mgr
  abort_from i _ mgr = none

  -- `await` of call `i` sees `doneCh` closed, and takes that case.
  unfoldable pub abort : ℕ → Manager S B → Option (Manager S B)
  abort i mgr = abort_from i (get_elem? mgr.calls i) mgr

  -- `close(mgr.eventCh)` of `Close`, which has closed `terminateCh` and waited for `doneCh` or the
  -- timeout.
  unfoldable pub close_event_ch : Manager S B → Option (Manager S B)
  close_event_ch mgr =
      if mgr.pool.terminate_closed && not mgr.event_ch_closed
      then some (record mgr { event_ch_closed = true; calls = map hang_up mgr.calls })
      else none

  module _ (objs : Objects S B) where
    abbrev pub answer :
        List (ℕ × Event B) → Option (Pool (ℕ × Event B)) → Manager S B → Option (Manager S B)
    answer ((i, e) ∷ q) (some pool) mgr =
        let (err, kernel) = handle_event objs e mgr.kernel in
        some (record mgr {
          kernel = kernel;
          pool = pool;
          blocked = blocked_by i err;
          calls = set mgr.calls i (offered err);
        })
    answer _ _ mgr = none

    -- The worker takes an event and handles it: `errCh` gets closed, or the worker waits to send the
    -- error on it.
    unfoldable pub work : Manager S B → Option (Manager S B)
    unfolding run_job handle_event
    work mgr = if is_blocked mgr.blocked then none else answer mgr.pool.q (run_job mgr.pool) mgr
