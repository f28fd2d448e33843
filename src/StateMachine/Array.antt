-- ===== src/StateMachine/Array.antt =====
-- internal/adapter/statemachine/array.go: `array` over a slice, with an optional filter function of
-- the caller. The in-place writes of `executeDelete` go to the array that the state owns: slices are
-- values here, and a slice shared with the caller of `WithInitialState` is not modelled.
pub mod Laws
use udplb.Base.{
  ℕ, zero, suc, ◌+◌, ◌-◌, Bool, true, false, Option, none, some, List, [], ◌∷◌, ◌++◌, ltb, length,
  take, drop, if◌then◌else◌,
}
use udplb.Types.{Command}
use udplb.StateMachine.{Error}

module _ {ℓ} {T : Type ℓ} where
  -- The loop of `executePut`.
  unfoldable pub replace_matches : (T → T → Bool) → T → List T → List T
  replace_matches filter obj [] = []
  replace_matches filter obj (o ∷ os) =
      let rest = replace_matches filter obj os in if filter obj o then obj ∷ rest else o ∷ rest

  unfoldable pub execute_put : Option (T → T → Bool) → T → List T → Option Error × List T
  unfolding replace_matches
  execute_put none obj state = (some Error.operation_requires_a_filter_func, state)
  execute_put (some filter) obj state = (none, replace_matches filter obj state)

  -- `out` for the match at index `i`.
  unfoldable pub without : ℕ → List T → List T
  without i state =
      let out = if ltb 0 i then take i state else [] in
      if ltb i (length state - 1) then out ++ drop (i + 1) state else out

  -- The loop of `executeDelete` from index `i` on.
  unfoldable pub delete_from : (T → T → Bool) → T → ℕ → List T → List T → Option Error × List T
  unfolding without
  delete_from filter obj i [] state = (some Error.not_found, state)
  delete_from filter obj i (o ∷ os) state =
      let rest = delete_from filter obj (i + 1) os state in
      if filter obj o then (none, without i state) else rest

  unfoldable pub execute_delete : Option (T → T → Bool) → T → List T → Option Error × List T
  unfolding delete_from
  execute_delete none obj state = (some Error.operation_requires_a_filter_func, state)
  execute_delete (some filter) obj state = delete_from filter obj 0 state state

  unfoldable pub execute : Option (T → T → Bool) → Command → T → List T → Option Error × List T
  unfolding execute_put execute_delete
  execute filter Command.append obj state = (none, state ++ (obj ∷ []))
  execute filter Command.put obj state = execute_put filter obj state
  execute filter Command.delete obj state = execute_delete filter obj state
  execute filter _ obj state = (some Error.unsupported_state_machine_command, state)
