-- ===== src/Bpf/Calls/Tests.antt =====
-- A call that is served and then aborted, and one that is still sending when `Close` closes the channel.
use udplb.Base.{ℕ, refl, true, none, [], ◌∷◌}
use udplb.WorkerPool.{send_job, run_job, close_pool, stop_worker}
use udplb.Bpf.{Event, set, session_batch_delete, handle_event, set_objects}
use udplb.Bpf.Tests.{Kernel, two_buffers, fresh, to_set}
use udplb.Bpf.Calls.{
  sending, awaiting, offered, aborted, panicked, Manager, new_manager, submit, accept, work,
  terminate, end_loop, stop, finish, abort, close_event_ch,
}
use udplb.Bpf.Calls.Step.{
  Reach, created, stepped, submits, accepts, works, terminates, ends_loop, stops, finishes, aborts,
  closes,
}
use udplb.Bpf.Calls.Frame.{Linear}
use udplb.Bpf.Calls.Order.{Reach-Linear}

abbrev first : Event ℕ
first = set to_set

abbrev second : Event ℕ
second = session_batch_delete []

abbrev two_calls : Manager Kernel ℕ
two_calls = record (new_manager fresh) { calls = sending first ∷ sending second ∷ [] }

abbrev accepted : Manager Kernel ℕ
accepted = record two_calls {
  pool = record two_calls.pool { q = (0, first) ∷ [] };
  calls = awaiting ∷ sending second ∷ [];
}

abbrev handled : Manager Kernel ℕ
handled = record accepted {
  kernel = (handle_event two_buffers first fresh).1;
  pool = record accepted.pool { q = []; executed = (0, first) ∷ [] };
  calls = offered none ∷ sending second ∷ [];
}

abbrev terminating : Manager Kernel ℕ
terminating = record handled {
  pool = record handled.pool { terminate_closed = true; workers = 0 };
  loop_ended = true;
}

-- The first call was handled without an error, and is aborted all the same.
abbrev hung_up : Manager Kernel ℕ
hung_up = record terminating {
  is_done = true;
  event_ch_closed = true;
  calls = aborted ∷ panicked ∷ [];
}

handled-Reach : Reach two_buffers fresh handled
unfolding submit accept work send_job run_job handle_event set_objects
handled-Reach =
    stepped {mgr = accepted}
      (stepped {mgr = two_calls}
        (stepped (stepped created (submits first refl)) (submits second refl)) (accepts 0 refl))
      (works refl)

hung_up-Reach : Reach two_buffers fresh hung_up
unfolding terminate end_loop stop finish abort close_event_ch close_pool stop_worker
hung_up-Reach =
    let t = stepped (stepped handled-Reach (terminates refl)) (ends_loop refl) in
    let d = stepped (stepped {mgr' = terminating} t (stops refl)) (finishes refl) in
    stepped (stepped d (aborts 0 refl)) (closes refl)

Reach-Linear_example : Linear two_buffers fresh hung_up
Reach-Linear_example = Reach-Linear two_buffers fresh hung_up-Reach
