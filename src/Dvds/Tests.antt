-- ===== src/Dvds/Tests.antt =====
-- A JSON of numbers that merges as the package does, and the theorems with it.
use udplb.Base.{
  ℕ, ◌-◌, ◌≡◌, refl, ap, ◌∙◌, arith, Option, none, some, List, [], ◌∷◌, map, ◌⊎◌, inr, Map, IsMap,
  lookup, nat_comparable, length, drop, some_same, sym,
}
use udplb.StateMachine.{Error, copy_into}
use udplb.StateMachine.Hashmap.Replay.{register}
use udplb.StateMachine.Hashmap.Copy.{copy_into-lookup, copy_into-IsMap}
use udplb.Wal.{Wal, new_wal}
use udplb.Wal.Pipeline.{propose_all, drain}
use udplb.Dvds.{commands, event_loop}
use udplb.Dvds.Replicas.{hashmap, puts, event_loop-register}
use udplb.Dvds.Snapshots.{Json}

abbrev flatten : Map ℕ ℕ → List ℕ
flatten [] = []
flatten ((k, v) ∷ m) = k ∷ v ∷ flatten m

abbrev parse : List ℕ → Map ℕ ℕ
parse [] = []
parse (k ∷ []) = []
parse (k ∷ v ∷ buf) = (k, v) ∷ parse buf

abbrev marshal : Map ℕ ℕ → Option (List ℕ)
marshal m = some (flatten m)

abbrev decode : List ℕ → Map ℕ ℕ → Option Error × Map ℕ ℕ
decode buf m = (none, copy_into m (parse buf))

parse-flatten : (m : Map ℕ ℕ) → parse (flatten m) ≡ m
parse-flatten [] = refl
parse-flatten ((k, v) ∷ m) = ap (λ (l : Map ℕ ℕ). (k, v) ∷ l) (parse-flatten m)

parse-IsMap : (u : Map ℕ ℕ) (buf : List ℕ) → IsMap u → marshal u ≡ some buf → parse buf ≡ u
parse-IsMap u buf h e = ap parse (some_same (sym e)) ∙ parse-flatten u

flat-Json : Json marshal decode
flat-Json = record {
  merges = λ u m buf k h e.
      ap (λ (l : Map ℕ ℕ). lookup k (copy_into m l)) (parse-IsMap u buf h e)
      ∙ copy_into-lookup m u k h;
  distinct = λ m buf h. copy_into-IsMap m (parse buf) h;
}

abbrev entry_of : ℕ × ℕ → Error ⊎ (ℕ × ℕ)
entry_of p = inr p

abbrev stale : Map ℕ ℕ
stale = (1, 5) ∷ (2, 6) ∷ []

abbrev fresh : Map ℕ ℕ
fresh = (2, 7) ∷ []

abbrev values : List (ℕ × ℕ)
values = (3, 8) ∷ (1, 9) ∷ []

event_loop-register_example :
    (w : Wal (ℕ × ℕ)) × (w' : Wal (ℕ × ℕ)) × (out : List (List (ℕ × ℕ))) × (propose_all values
        (new_wal [] 4)
      ≡ some w)
    × (drain (length (drop (length values - 32) values)) w ≡ some (out, w'))
    × ((k : ℕ)
        → lookup k ((event_loop (hashmap entry_of decode) marshal (map commands out) stale).1)
          ≡ register entry_of k (puts (drop (length values - 32) values)) (lookup k stale))
    × IsMap ((event_loop (hashmap entry_of decode) marshal (map commands out) stale).1)
event_loop-register_example =
    event_loop-register entry_of decode marshal [] 4 values stale (omega arith) (refl, (refl, tt))
