-- ===== src/StateMachine/Hashmap.antt =====
-- internal/adapter/statemachine/map.go and set.go: `hashmap` and `set` over a Go map. The transform
-- function is a parameter: it gives the entry of an object, or an error.
pub mod Replay
pub mod Copy
use udplb.Base.{Option, none, some, ◌⊎◌, inl, inr, Comparable, Map, insert, delete, List, [], ◌∷◌}
use udplb.Types.{Command}
use udplb.StateMachine.{Error}

module _ {ℓ κ} {K : Type ℓ} {V : Type κ} ⦃c : Comparable K⦄ where
  -- The switch of `Execute`.
  abbrev pub execute_entry : Command → K → V → Map K V → Option Error × Map K V
  execute_entry Command.put k v state = (none, insert k v state)
  execute_entry Command.delete k v state = (none, delete k state)
  execute_entry _ k v state = (some Error.unsupported_state_machine_command, state)

  abbrev pub execute_transformed : Command → Error ⊎ (K × V) → Map K V → Option Error × Map K V
  execute_transformed verb (inl e) state = (some e, state)
  execute_transformed verb (inr (k, v)) state = execute_entry verb k v state

  module _ {μ} {E : Type μ} (transform_func : E → Error ⊎ (K × V)) where
    -- `hashmap.Execute`.
    unfoldable pub execute : Command → E → Map K V → Option Error × Map K V
    execute verb obj state = execute_transformed verb (transform_func obj) state

    -- The state after a log of commands, those that fail leaving it as it is.
    unfoldable pub run : List (Command × E) → Map K V → Map K V
    unfolding execute
    run [] state = state
    run ((verb, obj) ∷ log) state = run log ((execute verb obj state).1)

-- `set.Execute`.
unfoldable pub execute_set {ℓ} :
    {T : Type ℓ} ⦃c : Comparable T⦄
    → Command
    → T
    → Map {ℓ, 0} T Unit
    → Option Error × Map {ℓ, 0} T Unit
execute_set Command.put obj state = (none, insert obj tt state)
execute_set Command.delete obj state = (none, delete obj state)
execute_set _ obj state = (some Error.unsupported_state_machine_command, state)
