-- ===== src/Dvds.antt =====
-- internal/controller/dvds/dvds.go: the event loop applies what the two write-ahead logs dispatch to a
-- state machine and dispatches the state. The machine is known by its interface
-- (internal/types/interfaces.go), and encoding/json by the function `marshal`.
pub mod Replicas
pub mod Snapshots
mod Tests
use udplb.Base.{ℕ, Option, none, some, List, [], ◌∷◌}
use udplb.Types.{Command}
use udplb.StateMachine.{Error}

-- `types.StateMachine` on machines `M`, with commands on `T` and states `U`. A method that fails may
-- have changed the machine.
pub record StateMachine {ℓ κ μ} (M : Type ℓ) (T : Type κ) (U : Type μ) : Type (ℓ ⊔ κ ⊔ μ) where
  pub execute : Command → T → M → Option Error × M
  pub decode : List ℕ → M → Option Error × M
  pub state : M → U

-- What the loop receives, until one of its channels is closed.
pub data Event {κ μ} (T : Type κ) (U : Type μ) : Type (κ ⊔ μ) where
  commands : List T → Event T U
  snapshots : List U → Event T U

-- `snapshots[len(snapshots)-1]`.
abbrev pub last_of {μ} : {U : Type μ} → U → List U → U
last_of u [] = u
last_of u (v ∷ vs) = last_of v vs

module _ {ℓ κ μ} {M : Type ℓ} {T : Type κ} {U : Type μ} (stm : StateMachine M T U)
    (marshal : U → Option (List ℕ)) where
  -- The loop over the entries; errors are dropped.
  unfoldable pub execute_all : List T → M → M
  execute_all [] m = m
  execute_all (entry ∷ entries) m = execute_all entries ((stm.execute Command.put entry m).1)

  -- The snapshot as JSON, decoded into the machine; without JSON the loop goes on.
  abbrev pub apply_snapshot : Option (List ℕ) → M → Option U × M
  apply_snapshot none m = (none, m)
  apply_snapshot (some buf) m = let m' = (stm.decode buf m).1 in (some (stm.state m'), m')

  -- One round of the loop: what it dispatches, if anything.
  unfoldable pub handle : Event T U → M → Option U × M
  unfolding execute_all
  handle (commands entries) m = let m' = execute_all entries m in (some (stm.state m'), m')
  handle (snapshots []) m = (none, m)
  handle (snapshots (u ∷ us)) m = apply_snapshot (marshal (last_of u us)) m

  abbrev pub sent : Option U → List U → List U
  sent none us = us
  sent (some u) us = u ∷ us

  -- The loop: the states dispatched, in order, and the machine.
  unfoldable pub event_loop : List (Event T U) → M → List U × M
  unfolding handle
  event_loop [] m = ([], m)
  event_loop (e ∷ es) m =
      let (out, m') = handle e m in let (outs, m'') = event_loop es m' in (sent out outs, m'')
