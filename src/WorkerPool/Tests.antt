-- ===== src/WorkerPool/Tests.antt =====
-- A run of two workers that are told to terminate with a job in the queue.
use udplb.Base.{ℕ, ◌≡◌, ◌<◌, refl, true, false, List, [], ◌∷◌, ◌++◌}
use udplb.WorkerPool.{Pool, new_pool, hand_over, send_job, run_job, close_pool, stop_worker}
use udplb.WorkerPool.Drain.{
  Reach, created, hands_over, sends, runs, terminates, stops, Reach-drained,
}

abbrev one_left : Pool ℕ
one_left = record {
  q = [];
  q_closed = false;
  terminate_closed = true;
  workers = 1;
  executed = 7 ∷ 8 ∷ [];
}

one_left-Reach : Reach 2 10 (7 ∷ 8 ∷ []) (7 ∷ 8 ∷ []) one_left
unfolding send_job run_job close_pool stop_worker
one_left-Reach =
    stops (runs (terminates (runs (sends 8 (sends 7 created refl) refl) refl) refl) refl) refl

Reach-drained_example :
    (one_left.executed ++ one_left.q ≡ 7 ∷ 8 ∷ [])
    × (one_left.workers < 2 → (rest : List ℕ) × (one_left.executed ≡ (7 ∷ 8 ∷ []) ++ rest))
Reach-drained_example = Reach-drained one_left-Reach

-- With no buffer, a job is handed to a worker.
handed_run : Reach {J = ℕ} 1 0 (7 ∷ []) [] (record (new_pool 1) { executed = 7 ∷ [] })
unfolding hand_over
handed_run = hands_over 7 created refl
