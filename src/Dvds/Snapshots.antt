-- ===== src/Dvds/Snapshots.antt =====
-- internal/controller/dvds/dvds.go: a snapshot on a map state machine.
use udplb.Base.{
  ℕ, Option, none, some, List, [], ◌∷◌, ◌≡◌, refl, ap, ◌∙◌, ◌⊎◌, Comparable, Map, lookup, IsMap,
}
use udplb.Types.{Command}
use udplb.StateMachine.{Error, copy_map}
use udplb.StateMachine.Hashmap.{run, execute}
use udplb.StateMachine.Hashmap.Replay.{run-register, register}
use udplb.Dvds.{commands, snapshots, last_of, execute_all, event_loop, apply_snapshot}
use udplb.Dvds.Replicas.{hashmap, puts}

-- The documented behaviour of encoding/json on a map: what `Marshal` gave is read back, and `Unmarshal`
-- into a map that is not nil keeps the entries that are there and sets those of the input;
-- a Go map has each key once.
pub record Json {ℓ κ} {K : Type ℓ} {V : Type κ} ⦃c : Comparable K⦄
    (marshal : Map K V → Option (List ℕ)) (decode : List ℕ → Map K V → Option Error × Map K V)
    : Type (ℓ ⊔ κ) where
  pub merges :
      (u m : Map K V) (buf : List ℕ) (k : K)
      → IsMap u
      → marshal u ≡ some buf
      → lookup k ((decode buf m).1) ≡ elim (lookup k u) [ none ↦ lookup k m | some v ↦ some v ]
  pub distinct : (m : Map K V) (buf : List ℕ) → IsMap m → IsMap ((decode buf m).1)

module _ {ℓ κ μ} {K : Type ℓ} {V : Type κ} ⦃c : Comparable K⦄ {E : Type μ}
    (transform_func : E → Error ⊎ (K × V)) (decode : List ℕ → Map K V → Option Error × Map K V)
    (marshal : Map K V → Option (List ℕ)) where
  execute_all-run :
      (vs : List E) (m : Map K V)
      → execute_all (hashmap transform_func decode) marshal vs m ≡ run transform_func (puts vs) m
  unfolding execute_all run
  execute_all-run [] m = refl
  execute_all-run (v ∷ vs) m = execute_all-run vs ((execute transform_func Command.put v m).1)

  -- The value of a key in a snapshot, or else in the state that it is applied to.
  abbrev pub merged : Map K V → Map K V → K → Option V
  merged u m k = elim (lookup k u) [ none ↦ lookup k m | some v ↦ some v ]

  -- A snapshot with distinct keys, and then values, on a replica with distinct keys: it
  -- ends with what the values, as Put commands, make of the
  -- snapshot's value of a key, and of the value that the replica had before if the snapshot lacks the
  -- key. So a snapshot deletes nothing, and replicas that differ on such a key differ after it.
  event_loop-merged :
      (u : Map K V) (us : List (Map K V)) (vs : List E) (m : Map K V) (buf : List ℕ) (k : K)
      → Json marshal decode
      → IsMap m
      → IsMap (last_of u us)
      → marshal (last_of u us) ≡ some buf
      → lookup k (
          (event_loop
            (hashmap transform_func decode)
            marshal
            (snapshots (u ∷ us) ∷ commands vs ∷ [])
            m).1)
        ≡ register transform_func k (puts vs) (merged (last_of u us) m k)
  unfolding event_loop
  event_loop-merged u us vs m buf k json ok ok_u e =
      let m' = (decode buf m).1 in
      let (found, _) = run-register transform_func (puts vs) m' (json.distinct m buf ok) in
      let applied : apply_snapshot (hashmap transform_func decode) marshal (marshal (last_of u us))
            m
          ≡ (some (copy_map m'), m') =
        ap (λ o. apply_snapshot (hashmap transform_func decode) marshal o m) e in
      ap
        (λ (r : Option (Map K V) × Map K V).
          lookup k (execute_all (hashmap transform_func decode) marshal vs r.1))
        applied
      ∙ ap (lookup k) (execute_all-run vs m')
      ∙ found k
      ∙ ap (register transform_func k (puts vs)) (json.merges (last_of u us) m buf k ok_u e)
