-- ===== src/Bpf/Tests.antt =====
-- Double-buffered structures that defer, and the theorem for them.
use udplb.Base.{ℕ, none, some, List, [], ◌∷◌, Map, refl, length, ltb, if◌then◌else◌}
use udplb.Types.{Uuid}
use udplb.Bpf.{Objects, EventObjects, set, handle_event}
use udplb.Bpf.Atomic.{Defers, SetOutcome, handle_event-SetOutcome}

-- What the kernel program reads, and what is staged behind it.
pub record Kernel : Type 0 where
  backends : List ℕ
  staged_backends : List ℕ
  table : List ℕ
  staged_table : List ℕ
  sessions : Map Uuid ℕ
  staged_sessions : Map Uuid ℕ

abbrev pub two_buffers : Objects Kernel ℕ
two_buffers = record {
  backend_list = record {
    set_and_defer_switchover = λ x k. (none, record k { staged_backends = x });
    switchover = λ k. record k { backends = k.staged_backends };
    visible = λ k. k.backends;
  };
  lookup_table = record {
    set_and_defer_switchover =
        λ x k. (if ltb 7 (length x) then some 12 else none, record k { staged_table = x });
    switchover = λ k. record k { table = k.staged_table };
    visible = λ k. k.table;
  };
  session_map = record {
    set_and_defer_switchover = λ x k. (none, record k { staged_sessions = x });
    switchover = λ k. record k { sessions = k.staged_sessions };
    visible = λ k. k.sessions;
  };
  batch_update = λ m k. (none, record k { sessions = m });
  batch_delete = λ ids k. (none, k);
}

two_buffers-Defers : Defers two_buffers
two_buffers-Defers = record {
  backend_list = λ x k. record { backend_list = refl; lookup_table = refl; session_map = refl };
  lookup_table = λ x k. record { backend_list = refl; lookup_table = refl; session_map = refl };
  session_map = λ x k. record { backend_list = refl; lookup_table = refl; session_map = refl };
}

abbrev pub fresh : Kernel
fresh = record {
  backends = [];
  staged_backends = [];
  table = [];
  staged_table = [];
  sessions = [];
  staged_sessions = [];
}

abbrev pub to_set : EventObjects ℕ
to_set = record { backend_list = 9 ∷ []; lookup_table = 0 ∷ 0 ∷ []; session_map = [] }

handle_event-SetOutcome_example :
    SetOutcome two_buffers to_set fresh (handle_event two_buffers (set to_set) fresh)
handle_event-SetOutcome_example =
    handle_event-SetOutcome two_buffers to_set fresh two_buffers-Defers
