-- ===== src/Bpf/Atomic.antt =====
-- internal/adapter/bpf/manager.go: a failed `Set` event shows nothing to the kernel program.
use udplb.Base.{ℕ, Option, none, some, List, ◌≡◌, refl, ◌∙◌, Map}
use udplb.Types.{Uuid}
use udplb.Bpf.{
  Objects, EventObjects, set, EventError, bpf_error, and_then, done, switch_over, handle_event,
}

-- What the kernel program reads of the three structures.
pub record Sees {S B : Type 0} (objs : Objects S B) (s s' : S) : Type 0 where
  pub backend_list : objs.backend_list.visible s' ≡ objs.backend_list.visible s
  pub lookup_table : objs.lookup_table.visible s' ≡ objs.lookup_table.visible s
  pub session_map : objs.session_map.visible s' ≡ objs.session_map.visible s

-- The documented part of `SetAndDeferSwitchover` that the manager relies on: until the switchover, what
-- the kernel program reads of any structure stays as it is, whether the call fails or not.
pub record Defers {S B : Type 0} (objs : Objects S B) : Type 0 where
  pub backend_list :
      (x : List B) (s : S) → Sees objs s ((objs.backend_list.set_and_defer_switchover x s).1)
  pub lookup_table :
      (x : List ℕ) (s : S) → Sees objs s ((objs.lookup_table.set_and_defer_switchover x s).1)
  pub session_map :
      (x : Map Uuid ℕ) (s : S) → Sees objs s ((objs.session_map.set_and_defer_switchover x s).1)

-- The outcome of a `Set` event: the first of the three calls that fails ends it with its error, in the
-- state that it left, and the kernel program reads what it read before; or the three calls came back in
-- order and the three switchovers follow.
pub data SetOutcome {S B : Type 0} (objs : Objects S B) (o : EventObjects B) (s : S)
    : Option EventError × S → Type 0 where
  backend_list_failed :
      (e : ℕ) (s1 : S)
      → objs.backend_list.set_and_defer_switchover o.backend_list s ≡ (some e, s1)
      → Sees objs s s1
      → SetOutcome objs o s (some (bpf_error e), s1)
  lookup_table_failed :
      (e : ℕ) (s1 s2 : S)
      → objs.backend_list.set_and_defer_switchover o.backend_list s ≡ (none, s1)
      → objs.lookup_table.set_and_defer_switchover o.lookup_table s1 ≡ (some e, s2)
      → Sees objs s s2
      → SetOutcome objs o s (some (bpf_error e), s2)
  session_map_failed :
      (e : ℕ) (s1 s2 s3 : S)
      → objs.backend_list.set_and_defer_switchover o.backend_list s ≡ (none, s1)
      → objs.lookup_table.set_and_defer_switchover o.lookup_table s1 ≡ (none, s2)
      → objs.session_map.set_and_defer_switchover o.session_map s2 ≡ (some e, s3)
      → Sees objs s s3
      → SetOutcome objs o s (some (bpf_error e), s3)
  switched :
      (s1 s2 s3 : S)
      → objs.backend_list.set_and_defer_switchover o.backend_list s ≡ (none, s1)
      → objs.lookup_table.set_and_defer_switchover o.lookup_table s1 ≡ (none, s2)
      → objs.session_map.set_and_defer_switchover o.session_map s2 ≡ (none, s3)
      → SetOutcome objs o s (none, switch_over objs s3)

module _ {S B : Type 0} (objs : Objects S B) (o : EventObjects B) (s : S) where
  Sees-trans : (s1 s2 : S) → Sees objs s s1 → Sees objs s1 s2 → Sees objs s s2
  Sees-trans s1 s2 h k = record {
    backend_list = k.backend_list ∙ h.backend_list;
    lookup_table = k.lookup_table ∙ h.lookup_table;
    session_map = k.session_map ∙ h.session_map;
  }

  third :
      (s1 s2 : S) (r : Option ℕ × S)
      → objs.backend_list.set_and_defer_switchover o.backend_list s ≡ (none, s1)
      → objs.lookup_table.set_and_defer_switchover o.lookup_table s1 ≡ (none, s2)
      → objs.session_map.set_and_defer_switchover o.session_map s2 ≡ r
      → Sees objs s r.1
      → SetOutcome objs o s (and_then r (λ s3. done (switch_over objs s3)))
  third s1 s2 (some e, s3) p q r h = session_map_failed e s1 s2 s3 p q r h
  third s1 s2 (none, s3) p q r h = switched s1 s2 s3 p q r

  second :
      (s1 : S) (r : Option ℕ × S)
      → Defers objs
      → objs.backend_list.set_and_defer_switchover o.backend_list s ≡ (none, s1)
      → objs.lookup_table.set_and_defer_switchover o.lookup_table s1 ≡ r
      → Sees objs s r.1
      → SetOutcome objs o s (
          and_then r (λ s2.
            and_then
              (objs.session_map.set_and_defer_switchover o.session_map s2)
              (λ s3. done (switch_over objs s3))))
  second s1 (some e, s2) d p q h = lookup_table_failed e s1 s2 p q h
  second s1 (none, s2) d p q h =
      third s1 s2 (objs.session_map.set_and_defer_switchover o.session_map s2) p q refl
        (Sees-trans s2 _ h (d.session_map o.session_map s2))

  first :
      (r : Option ℕ × S)
      → Defers objs
      → objs.backend_list.set_and_defer_switchover o.backend_list s ≡ r
      → Sees objs s r.1
      → SetOutcome objs o s (
          and_then r (λ s1.
            and_then (objs.lookup_table.set_and_defer_switchover o.lookup_table s1) (λ s2.
              and_then
                (objs.session_map.set_and_defer_switchover o.session_map s2)
                (λ s3. done (switch_over objs s3)))))
  first (some e, s1) d p h = backend_list_failed e s1 p h
  first (none, s1) d p h =
      second s1 (objs.lookup_table.set_and_defer_switchover o.lookup_table s1) d p refl
        (Sees-trans s1 _ h (d.lookup_table o.lookup_table s1))

-- If the structures defer what a call writes to the switchover, a `Set` event calls
-- `SetAndDeferSwitchover` of the backend list, the lookup table and the session map in this order. The
-- first call that fails ends it: the event returns the error of that call in the state that the call
-- left, no switchover is made, and the kernel program reads of all three structures what it read before.
-- If none fails, the event returns none and the three switchovers follow.
pub handle_event-SetOutcome :
    {S B : Type 0} (objs : Objects S B) (o : EventObjects B) (s : S)
    → Defers objs
    → SetOutcome objs o s (handle_event objs (set o) s)
unfolding handle_event
handle_event-SetOutcome objs o s d =
    first objs o s (objs.backend_list.set_and_defer_switchover o.backend_list s) d refl
      (d.backend_list o.backend_list s)
