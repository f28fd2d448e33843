-- ===== src/StateMachine/Hashmap/Replay.antt =====
-- internal/adapter/statemachine/map.go: a log of commands seen from one key.
use udplb.Base.{
  Option, none, some, ◌⊎◌, inl, inr, Comparable, Map, lookup, lookup-insert, lookup-delete,
  insert-IsMap, delete-IsMap, IsMap, List, [], ◌∷◌, ◌==◌, if◌then◌else◌, ◌≡◌, refl, sym, ◌∙◌,
  Bool-cases, ap,
}
use udplb.Types.{Command}
use udplb.StateMachine.{Error}
use udplb.StateMachine.Hashmap.{execute, execute_entry, execute_transformed, run}

-- A register is left alone, or set whatever it holds.
abbrev Overwrites {κ} : {V : Type κ} → (Option V → Option V) → Type κ
Overwrites {V = V} f = ((r : Option V) → f r ≡ r) ⊎ ((w : Option V) × ((r : Option V) → f r ≡ w))

module _ {ℓ κ} {K : Type ℓ} {V : Type κ} ⦃c : Comparable K⦄ where
  -- What a command about key `j` makes of a register that holds the value of `k`.
  abbrev pub written : K → Command → K → V → Option V → Option V
  written k Command.put j v r = if j == k then some v else r
  written k Command.delete j v r = if j == k then none else r
  written k _ j v r = r

  execute_entry-written :
      (k : K) (verb : Command) (j : K) (v : V) (m : Map K V)
      → lookup k ((execute_entry verb j v m).1) ≡ written k verb j v (lookup k m)
  execute_entry-written k Command.put j v m = lookup-insert j k v m
  execute_entry-written k Command.delete j v m = lookup-delete j k m
  execute_entry-written k Command.add j v m = refl
  execute_entry-written k Command.append j v m = refl
  execute_entry-written k Command.subtract j v m = refl
  execute_entry-written k Command.other j v m = refl

  execute_entry-IsMap :
      (verb : Command) (j : K) (v : V) (m : Map K V)
      → IsMap m
      → IsMap ((execute_entry verb j v m).1)
  execute_entry-IsMap Command.put j v m h = insert-IsMap j v m h
  execute_entry-IsMap Command.delete j v m h = delete-IsMap j m h
  execute_entry-IsMap Command.add j v m h = h
  execute_entry-IsMap Command.append j v m h = h
  execute_entry-IsMap Command.subtract j v m h = h
  execute_entry-IsMap Command.other j v m h = h

  -- The same for what the transform function made of an object.
  abbrev pub transformed : K → Command → Error ⊎ (K × V) → Option V → Option V
  transformed k verb (inl e) r = r
  transformed k verb (inr (j, v)) r = written k verb j v r

  execute_transformed-lookup :
      (k : K) (verb : Command) (t : Error ⊎ (K × V)) (m : Map K V)
      → lookup k ((execute_transformed verb t m).1) ≡ transformed k verb t (lookup k m)
  execute_transformed-lookup k verb (inl e) m = refl
  execute_transformed-lookup k verb (inr (j, v)) m = execute_entry-written k verb j v m

  execute_transformed-IsMap :
      (verb : Command) (t : Error ⊎ (K × V)) (m : Map K V)
      → IsMap m
      → IsMap ((execute_transformed verb t m).1)
  execute_transformed-IsMap verb (inl e) m h = h
  execute_transformed-IsMap verb (inr (j, v)) m h = execute_entry-IsMap verb j v m h

  written-Overwrites : (k : K) (verb : Command) (j : K) (v : V) → Overwrites (written k verb j v)
  written-Overwrites k Command.put j v = elim (Bool-cases (j == k)) [
    | inl e ↦ inr (some v, λ r. ap (λ b. if b then some v else r) e)
    | inr e ↦ inl (λ r. ap (λ b. if b then some v else r) e)
  ]
  written-Overwrites k Command.delete j v = elim (Bool-cases (j == k)) [
    | inl e ↦ inr (none, λ r. ap (λ b. if b then none else r) e)
    | inr e ↦ inl (λ r. ap (λ b. if b then none else r) e)
  ]
  written-Overwrites k Command.add j v = inl (λ r. refl)
  written-Overwrites k Command.append j v = inl (λ r. refl)
  written-Overwrites k Command.subtract j v = inl (λ r. refl)
  written-Overwrites k Command.other j v = inl (λ r. refl)

  transformed-Overwrites :
      (k : K) (verb : Command) (t : Error ⊎ (K × V)) → Overwrites (transformed k verb t)
  transformed-Overwrites k verb (inl e) = inl (λ r. refl)
  transformed-Overwrites k verb (inr (j, v)) = written-Overwrites k verb j v

  module _ {μ} {E : Type μ} (transform_func : E → Error ⊎ (K × V)) where
    -- A log as it acts on the register of `k`.
    abbrev pub register : K → List (Command × E) → Option V → Option V
    register k [] r = r
    register k ((verb, obj) ∷ log) r = register k log (transformed k verb (transform_func obj) r)

    -- After any log of commands the value of a key is what the commands about that key alone, taken
    -- as writes to one register in the order of the log, make of its old value; and the state holds
    -- each key at most once, if it did before.
    pub run-register :
        (log : List (Command × E)) (m : Map K V)
        → IsMap m
        → ((k : K) → lookup k (run transform_func log m) ≡ register k log (lookup k m))
          × IsMap (run transform_func log m)
    unfolding run execute
    run-register [] m h = ((λ k. refl), h)
    run-register ((verb, obj) ∷ log) m h =
        let (found, ok) =
          run-register log ((execute transform_func verb obj m).1)
            (execute_transformed-IsMap verb (transform_func obj) m h) in
        (
          (λ k.
              found k
              ∙ ap (register k log) (execute_transformed-lookup k verb (transform_func obj) m)),
          ok,
        )

    register-Overwrites : (k : K) (log : List (Command × E)) → Overwrites (register k log)
    register-Overwrites k [] = inl (λ r. refl)
    register-Overwrites k ((verb, obj) ∷ log) = elim (register-Overwrites k log) [
      | inr (w, const) ↦ inr (w, λ r. const (transformed k verb (transform_func obj) r))
      | inl same ↦ elim (transformed-Overwrites k verb (transform_func obj)) [
        | inl skip ↦ inl (λ r. same (transformed k verb (transform_func obj) r) ∙ skip r)
        | inr (w, put) ↦ inr (w, λ r. same (transformed k verb (transform_func obj) r) ∙ put r)
      ]
    ]

    register_idem :
        (k : K) (log : List (Command × E)) (r : Option V)
        → register k log (register k log r) ≡ register k log r
    register_idem k log r = elim (register-Overwrites k log) [
      | inl same ↦ same (register k log r)
      | inr (w, const) ↦ const (register k log r) ∙ sym (const r)
    ]

    -- Replaying a log on the state that it led to changes the value of no key: a log may be delivered
    -- again from its start.
    pub run-replay :
        (log : List (Command × E)) (m : Map K V)
        → IsMap m
        → (k : K)
        → lookup k (run transform_func log (run transform_func log m))
          ≡ lookup k (run transform_func log m)
    run-replay log m h k =
        let (found, ok) = run-register log m h in
        let (again, _) = run-register log (run transform_func log m) ok in
        again k ∙ ap (register k log) (found k) ∙ register_idem k log (lookup k m) ∙ sym (found k)
