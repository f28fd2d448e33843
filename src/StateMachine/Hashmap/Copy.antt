-- ===== src/StateMachine/Hashmap/Copy.antt =====
-- internal/adapter/statemachine: `State` and `DeepCopy` of the map, and the set as a map.
use udplb.Base.{
  none, some, inr, Comparable, Map, lookup, insert, lookup-insert, insert-IsMap, IsMap, [], ◌∷◌,
  ◌≡◌, refl, ◌∙◌, arith,
}
use udplb.Types.{Command}
use udplb.StateMachine.{copy_map, copy_into}
use udplb.StateMachine.Hashmap.{execute, execute_set}

module _ {ℓ κ} {K : Type ℓ} {V : Type κ} ⦃c : Comparable K⦄ where
  pub copy_into-lookup :
      (out m : Map K V) (k : K)
      → IsMap m
      → lookup k (copy_into out m) ≡ elim (lookup k m) [ none ↦ lookup k out | some v ↦ some v ]
  unfolding copy_into
  copy_into-lookup out [] k h = refl
  copy_into-lookup out ((j, v) ∷ m) k h = ground (
    arith,
    copy_into-lookup (insert j v out) m k h.1,
    lookup-insert j k v out,
    c.equal_iff j k,
    h.0,
  )

  pub copy_into-IsMap : (out m : Map K V) → IsMap out → IsMap (copy_into out m)
  unfolding copy_into
  copy_into-IsMap out [] h = h
  copy_into-IsMap out ((j, v) ∷ m) h = copy_into-IsMap (insert j v out) m (insert-IsMap j v out h)

  -- The copy of a map with distinct keys is such a map and has the same value at each key.
  copy_map-lookup :
      (m : Map K V) → IsMap m → ((k : K) → lookup k (copy_map m) ≡ lookup k m) × IsMap (copy_map m)
  unfolding copy_map
  copy_map-lookup m h = ((λ k. copy_into-lookup [] m k h ∙ ground arith), copy_into-IsMap [] m tt)

-- `set.Execute` does what `hashmap.Execute` does with the entry `obj ↦ {}`, on every command.
execute_set-execute {ℓ} :
    {T : Type ℓ} ⦃c : Comparable T⦄ (verb : Command) (obj : T) (state : Map T Unit)
    → execute_set verb obj state ≡ execute {E = T} (λ o. inr (o, tt)) verb obj state
unfolding execute execute_set
execute_set-execute Command.put obj state = refl
execute_set-execute Command.delete obj state = refl
execute_set-execute Command.add obj state = refl
execute_set-execute Command.append obj state = refl
execute_set-execute Command.subtract obj state = refl
execute_set-execute Command.other obj state = refl
