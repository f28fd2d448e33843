-- ===== src/Bpf.antt =====
-- internal/adapter/bpf/manager.go: the events of the data structure manager, executed one at a time by
-- the worker of `eventLoop`. The BPF structures are those of the package ebpfstruct, which is not part
-- of the repository: their operations are an interface over a kernel state `S`.
pub mod Atomic
pub mod Calls
mod Tests
use udplb.Base.{ℕ, Option, none, some, List, [], ◌∷◌, ◌⊎◌, inl, inr, Map}
use udplb.Types.{Uuid}

-- `SetAndDeferSwitchover` of one structure, the switchover that it gives back, and what the kernel
-- program reads of the structure. A failed call may have written something.
pub record Structure (S X : Type 0) : Type 0 where
  pub set_and_defer_switchover : X → S → Option ℕ × S
  pub switchover : S → S
  pub visible : S → X

-- The `Objects` that the manager holds; `B` is the backend as the kernel program reads it.
pub record Objects (S B : Type 0) : Type 0 where
  pub backend_list : Structure S (List B)
  pub lookup_table : Structure S (List ℕ)
  pub session_map : Structure S (Map Uuid ℕ)
  pub batch_update : Map Uuid ℕ → S → Option ℕ × S
  pub batch_delete : List Uuid → S → Option ℕ × S

pub record EventObjects (B : Type 0) : Type 0 where
  pub backend_list : List B
  pub lookup_table : List ℕ
  pub session_map : Map Uuid ℕ

-- The event kinds with what they carry.
pub data Event (B : Type 0) : Type 0 where
  set : EventObjects B → Event B
  session_batch_update : Map Uuid ℕ → Event B
  session_batch_delete : List Uuid → Event B
  unknown_kind : Event B

-- `ErrUnknownEventKind`, or the error of a BPF call.
pub data EventError : Type 0 where
  unknown_event_kind : EventError
  bpf_error : ℕ → EventError

-- `if err != nil { return err }` before the rest of a function.
abbrev pub and_then :
    {S : Type 0} → Option ℕ × S → (S → Option EventError × S) → Option EventError × S
and_then (none, s) rest = rest s
and_then (some e, s) rest = (some (bpf_error e), s)

abbrev pub done : {S : Type 0} → S → Option EventError × S
done s = (none, s)

module _ {S B : Type 0} (objs : Objects S B) where
  -- The three switchovers.
  abbrev pub switch_over : S → S
  switch_over s =
      objs.session_map.switchover (objs.lookup_table.switchover (objs.backend_list.switchover s))

  -- `setObjects`.
  unfoldable pub set_objects : EventObjects B → S → Option EventError × S
  set_objects o s = and_then (objs.backend_list.set_and_defer_switchover o.backend_list s) (λ s1.
      and_then (objs.lookup_table.set_and_defer_switchover o.lookup_table s1) (λ s2.
        and_then (objs.session_map.set_and_defer_switchover o.session_map s2)
          (λ s3. done (switch_over s3))))

  -- `handleEvent`: the error that it sends, if any.
  unfoldable pub handle_event : Event B → S → Option EventError × S
  unfolding set_objects
  handle_event (set o) s = set_objects o s
  handle_event (session_batch_update batch) s = and_then (objs.batch_update batch s) done
  handle_event (session_batch_delete batch) s = and_then (objs.batch_delete batch s) done
  handle_event unknown_kind s = (some unknown_event_kind, s)
