-- ===== src/Bpf/Calls/Step.antt =====
-- The interleavings of calls, event loop, worker and `Close`.
use udplb.Base.{ℕ, ◌≡◌, some}
use udplb.Bpf.{Objects, Event}
use udplb.Bpf.Calls.{
  Manager, new_manager, submit, accept, work, terminate, end_loop, stop, finish, receive, abort,
  close_event_ch,
}

pub data Step {S B : Type 0} (objs : Objects S B) (mgr mgr' : Manager S B) : Type 0 where
  submits : (e : Event B) → mgr' ≡ submit e mgr → Step objs mgr mgr'
  accepts : (i : ℕ) → accept i mgr ≡ some mgr' → Step objs mgr mgr'
  works : work objs mgr ≡ some mgr' → Step objs mgr mgr'
  terminates : terminate mgr ≡ some mgr' → Step objs mgr mgr'
  ends_loop : mgr' ≡ end_loop mgr → Step objs mgr mgr'
  stops : stop mgr ≡ some mgr' → Step objs mgr mgr'
  finishes : finish mgr ≡ some mgr' → Step objs mgr mgr'
  receives : (i : ℕ) → receive i mgr ≡ some mgr' → Step objs mgr mgr'
  aborts : (i : ℕ) → abort i mgr ≡ some mgr' → Step objs mgr mgr'
  closes : close_event_ch mgr ≡ some mgr' → Step objs mgr mgr'

pub data Reach {S B : Type 0} (objs : Objects S B) (s : S) : Manager S B → Type 0 where
  created : Reach objs s (new_manager s)
  stepped : {mgr mgr' : Manager S B} → Reach objs s mgr → Step objs mgr mgr' → Reach objs s mgr'
