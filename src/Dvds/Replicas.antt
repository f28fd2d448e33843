-- ===== src/Dvds/Replicas.antt =====
-- internal/controller/dvds/dvds.go: the loop behind a write-ahead log, on a map state machine.
use udplb.Base.{
  ℕ, zero, suc, ◌-◌, ◌<◌, Option, some, List, [], ◌∷◌, map, ◌≡◌, refl, sym, ap, ◌∙◌, arith, ◌⊎◌,
  Comparable, Map, lookup, IsMap, length, length-map, drop,
}
use mathlib.Core.Path.{subst}
use udplb.Types.{Command}
use udplb.StateMachine.{Error, copy_map}
use udplb.StateMachine.Hashmap.{run, execute}
use udplb.StateMachine.Hashmap.Replay.{run-register, register}
use udplb.Wal.{WalEntry, Wal, new_wal}
use udplb.Wal.Pipeline.{propose_all, drain, dispatches, entry, drain-propose_all}
use udplb.Dvds.{StateMachine, commands, handle, event_loop}

-- The commands that the loop makes of the values it receives.
abbrev pub puts {μ} : {E : Type μ} → List E → List (Command × E)
puts vs = map (λ v. (Command.put, v)) vs

payloads-drop {μ} :
    {E : Type μ} (name : List ℕ) (k : ℕ) (vs : List E)
    → map (λ (e : WalEntry E). e.payload) (drop k (map (entry name) vs)) ≡ drop k vs
payloads-drop name zero [] = refl
payloads-drop name zero (v ∷ vs) = ap (λ l. v ∷ l) (payloads-drop name zero vs)
payloads-drop name (suc k) [] = refl
payloads-drop name (suc k) (v ∷ vs) = payloads-drop name k vs

length-entries {μ} :
    {E : Type μ} (name : List ℕ) (k : ℕ) (vs : List E)
    → length (drop k (map (entry name) vs)) ≡ length (drop k vs)
length-entries {E} name k vs =
    sym (length-map (λ (e : WalEntry E). e.payload) (drop k (map (entry name) vs)))
    ∙ ap length (payloads-drop name k vs)

module _ {ℓ κ μ} {K : Type ℓ} {V : Type κ} ⦃c : Comparable K⦄ {E : Type μ} where
  -- The map of internal/adapter/statemachine/map.go behind the interface.
  abbrev pub hashmap :
      (E → Error ⊎ (K × V))
      → (List ℕ → Map K V → Option Error × Map K V)
      → StateMachine (Map K V) E (Map K V)
  hashmap transform_func decode = record {
    execute = execute transform_func;
    decode = decode;
    state = copy_map;
  }

  module _ (transform_func : E → Error ⊎ (K × V))
      (decode : List ℕ → Map K V → Option Error × Map K V)
      (marshal : Map K V → Option (List ℕ)) where
    event_loop-run :
        (es : List (WalEntry E)) (m : Map K V)
        → (event_loop (hashmap transform_func decode) marshal (map commands (dispatches es)) m).1
          ≡ run transform_func (puts (map (λ (e : WalEntry E). e.payload) es)) m
    unfolding event_loop run handle
    event_loop-run [] m = refl
    event_loop-run (e ∷ es) m =
        event_loop-run es ((execute transform_func Command.put e.payload m).1)

    -- Values proposed to a new log of positive capacity and drained as `Wal.Pipeline` says, then handed
    -- to the loop of a DVDS on a map state machine with distinct keys: the value of each key is what the
    -- last 32 of the proposals, as Put commands in the order proposed, make of its old value, and the
    -- keys are still distinct.
    pub event_loop-register :
        (name : List ℕ) (capacity : ℕ) (vs : List E) (m : Map K V)
        → 0 < capacity
        → IsMap m
        → let kept = drop (length vs - 32) vs in
          (w : Wal E) × (w' : Wal E) × (out : List (List E)) × (propose_all vs
              (new_wal name capacity)
            ≡ some w)
          × (drain (length kept) w ≡ some (out, w'))
          × ((k : K)
              → lookup k
                  ((event_loop (hashmap transform_func decode) marshal (map commands out) m).1)
                ≡ register transform_func k (puts kept) (lookup k m))
          × IsMap ((event_loop (hashmap transform_func decode) marshal (map commands out) m).1)
    event_loop-register name capacity vs m pos ok =
        let (w, w', e, q, _) = drain-propose_all name capacity capacity vs pos (omega arith) in
        let es = drop (length vs - 32) (map (entry name) vs) in
        let (found, distinct) =
          run-register transform_func (puts (drop (length vs - 32) vs)) m ok in
        let final =
          event_loop-run es m
          ∙ ap (λ l. run transform_func (puts l) m) (payloads-drop name (length vs - 32) vs) in
        (
          w,
          w',
          dispatches es,
          e,
          ap (λ n. drain n w) (sym (length-entries name (length vs - 32) vs)) ∙ q,
          λ k. ap (lookup k) final ∙ found k,
          subst IsMap (sym final) distinct,
        )
