-- ===== src/StateMachine.antt =====
-- internal/adapter/statemachine: the replicated data types behind `types.StateMachine`, one module per
-- file, and the parts of util.go. A method that returns an error returns it with the state it leaves.
-- `Encode` and `Decode` only call encoding/json and are not modelled.
pub mod Hashmap
pub mod Array
pub mod Counter
mod Tests
use udplb.Base.{
  Option, none, some, List, [], ◌∷◌, ◌⊎◌, inl, inr, if◌then◌else◌, ◌==◌, Comparable, Map, lookup,
  insert, IsMap, lookup-insert, insert-IsMap, ◌≡◌, refl, arith, ℕ, ◌∙◌, ==_refl, sym,
}

-- The errors that the methods return, and any other one, as a transform function may return.
pub data Error : Type 0 where
  unsupported_state_machine_command not_found operation_requires_a_filter_func : Error
  no_overflow no_underflow input_must_be_a_positive_integer : Error
  custom : ℕ → Error

-- `execOptions`: the options in order, up to the first error.
unfoldable pub exec_options {ℓ} : {S : Type ℓ} → List (S → Error ⊎ S) → S → Error ⊎ S
exec_options [] stm = inr stm
exec_options (o ∷ os) stm = elim (o stm) [ inl e ↦ inl e | inr stm' ↦ exec_options os stm' ]

-- `copyMap`: `maps.Copy` into a new map, entry by entry.
module _ {ℓ κ} {K : Type ℓ} {V : Type κ} ⦃c : Comparable K⦄ where
  unfoldable pub copy_into : Map K V → Map K V → Map K V
  copy_into out [] = out
  copy_into out ((k, v) ∷ m) = copy_into (insert k v out) m

  unfoldable pub copy_map : Map K V → Map K V
  unfolding copy_into
  copy_map m = copy_into [] m
