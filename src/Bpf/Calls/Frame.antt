-- ===== src/Bpf/Calls/Frame.antt =====
-- What the executed events did, and changes of the calls that respect it.
use mathlib.Core.Path.{subst}
use udplb.Base.{
  ℕ, zero, suc, ◌≡◌, ◌≢◌, refl, sym, ap, ◌∙◌, Bool, true, false, Option, none, some, List, [], ◌∷◌,
  ◌++◌, ◌⊎◌, inl, inr, map, nat_beq, nat_beq_iff, get_elem?, set, get_elem?-set_self,
  get_elem?-set_ne, get_elem?_lt_length, arith, elem, Bool-cases,
}
use udplb.Bpf.{Objects, Event, EventError, handle_event}
use udplb.Bpf.Calls.{
  Status, sending, awaiting, offered, answered, aborted, panicked, Manager, hang_up,
}

-- The calls of a list of jobs.
abbrev pub ids : {E : Type 0} → List (ℕ × E) → List ℕ
ids [] = []
ids ((i, e) ∷ js) = i ∷ ids js

pub ids-snoc :
    {E : Type 0} (i : ℕ) (e : E) (js : List (ℕ × E))
    → ids (js ++ ((i, e) ∷ [])) ≡ ids js ++ (i ∷ [])
ids-snoc i e [] = refl
ids-snoc i e ((j, f) ∷ js) = ap (λ l. j ∷ l) (ids-snoc i e js)

module _ {B : Type 0} where
  -- The call has returned `r`, or can have it; or it was aborted, and `r` is no error.
  abbrev pub SettledAs : Option EventError → Option (Status B) → Type 0
  SettledAs r none = ⊥
  SettledAs r (some (sending e)) = ⊥
  SettledAs r (some awaiting) = ⊥
  SettledAs r (some (offered r')) = r' ≡ r
  SettledAs r (some (answered r')) = r' ≡ r
  SettledAs r (some aborted) = r ≡ none
  SettledAs r (some panicked) = ⊥

  abbrev pub has_answer : Option (Status B) → Bool
  has_answer none = false
  has_answer (some (sending e)) = false
  has_answer (some awaiting) = false
  has_answer (some (offered r)) = true
  has_answer (some (answered r)) = true
  has_answer (some aborted) = false
  has_answer (some panicked) = false

  abbrev pub is_offered_error : Option (Status B) → Bool
  is_offered_error none = false
  is_offered_error (some (sending e)) = false
  is_offered_error (some awaiting) = false
  is_offered_error (some (offered none)) = false
  is_offered_error (some (offered (some e))) = true
  is_offered_error (some (answered r)) = false
  is_offered_error (some aborted) = false
  is_offered_error (some panicked) = false

module _ {S B : Type 0} (objs : Objects S B) where
  -- The events handled one after the other.
  abbrev pub run_jobs : List (ℕ × Event B) → S → S
  run_jobs [] s = s
  run_jobs ((i, e) ∷ js) s = run_jobs js ((handle_event objs e s).1)

  -- Each call is settled as what its event gave when it was handled.
  abbrev pub Served : List (ℕ × Event B) → S → List (Status B) → Type 0
  Served [] s calls = Unit
  Served ((i, e) ∷ js) s calls =
      SettledAs ((handle_event objs e s).0) (get_elem? calls i)
      × Served js ((handle_event objs e s).1) calls

  -- What holds of every reachable manager: the kernel state is what the executed events made of the
  -- first one, in order; each of their calls is settled as what its event gave there; and no other call
  -- has an answer.
  pub record Linear (s : S) (mgr : Manager S B) : Type 0 where
    pub kernel : mgr.kernel ≡ run_jobs mgr.pool.executed s
    pub served : Served mgr.pool.executed s mgr.calls
    pub only :
        (i : ℕ) → has_answer (get_elem? mgr.calls i) ≡ true → elem i (ids mgr.pool.executed) ≡ true

  pub run_jobs-snoc :
      (i : ℕ) (e : Event B) (js : List (ℕ × Event B)) (s : S)
      → run_jobs (js ++ ((i, e) ∷ [])) s ≡ (handle_event objs e (run_jobs js s)).1
  run_jobs-snoc i e [] s = refl
  run_jobs-snoc i e ((j, f) ∷ js) s = run_jobs-snoc i e js ((handle_event objs f s).1)

  pub Served-snoc :
      (i : ℕ) (e : Event B) (js : List (ℕ × Event B)) (s : S) (calls : List (Status B))
      → Served js s calls
      → SettledAs ((handle_event objs e (run_jobs js s)).0) (get_elem? calls i)
      → Served (js ++ ((i, e) ∷ [])) s calls
  Served-snoc i e [] s calls h a = (a, tt)
  Served-snoc i e ((j, f) ∷ js) s calls (b, h) a =
      (b, Served-snoc i e js ((handle_event objs f s).1) calls h a)

  -- Calls change in a way that keeps what they are settled as.
  abbrev pub Keeps : List (Status B) → List (Status B) → Type 0
  Keeps calls calls' =
      (i : ℕ) (r : Option EventError)
      → SettledAs r (get_elem? calls i)
      → SettledAs r (get_elem? calls' i)

  pub Served-kept :
      (js : List (ℕ × Event B)) (s : S) (calls calls' : List (Status B))
      → Keeps calls calls'
      → Served js s calls
      → Served js s calls'
  Served-kept [] s calls calls' k h = tt
  Served-kept ((i, e) ∷ js) s calls calls' k (a, h) =
      (k i _ a, Served-kept js ((handle_event objs e s).1) calls calls' k h)

module _ {B : Type 0} where
  abbrev pub IsAwaiting : List (Status B) → ℕ → Type 0
  IsAwaiting calls i = get_elem? calls i ≡ some awaiting

  abbrev pub option_hang_up : Option (Status B) → Option (Status B)
  option_hang_up none = none
  option_hang_up (some st) = some (hang_up st)

  pub get_elem?-hang_up :
      (calls : List (Status B)) (i : ℕ)
      → get_elem? (map hang_up calls) i ≡ option_hang_up (get_elem? calls i)
  get_elem?-hang_up [] i = refl
  get_elem?-hang_up (st ∷ calls) zero = refl
  get_elem?-hang_up (st ∷ calls) (suc i) = get_elem?-hang_up calls i

  -- A call after a change of call `i` is the changed one, or as before.
  pub set_at :
      (calls : List (Status B)) (i j : ℕ) (old new : Status B)
      → get_elem? calls i ≡ some old
      → ((i ≡ j) × (get_elem? (set calls i new) j ≡ some new))
        ⊎ ((i ≢ j) × (get_elem? (set calls i new) j ≡ get_elem? calls j))
  set_at calls i j old new at_i = elim (Bool-cases (nat_beq i j)) [
    | inl e ↦
        let same = (nat_beq_iff i j).0 e in
        inl (
          same,
          ap (λ k. get_elem? (set calls i new) k) (sym same)
              ∙ get_elem?-set_self calls i new (get_elem?_lt_length calls i old at_i),
        )
    | inr e ↦
        let ne : i ≢ j = λ p. let h = sym e ∙ (nat_beq_iff i j).1 p in ground arith in
        inr (ne, get_elem?-set_ne calls i j new ne)
  ]

  -- What holds of the changed call and of the others holds of each.
  pub set_all :
      (P : ℕ → Option (Status B) → Option (Status B) → Type 0) (calls : List (Status B)) (i j : ℕ)
      (old new : Status B)
      → get_elem? calls i ≡ some old
      → P i (some old) (some new)
      → ((o : Option (Status B)) → i ≢ j → P j o o)
      → P j (get_elem? calls j) (get_elem? (set calls i new) j)
  set_all P calls i j old new at_i changed others = elim (set_at calls i j old new at_i) [
    | inl (same, e) ↦
        subst (λ o. P j o (get_elem? (set calls i new) j))
          (sym (ap (λ k. get_elem? calls k) (sym same) ∙ at_i))
          (subst (λ o. P j (some old) o) (sym e)
            (subst (λ k. P k (some old) (some new)) same changed))
    | inr (ne, e) ↦ subst (λ o. P j (get_elem? calls j) o) (sym e) (others (get_elem? calls j) ne)
  ]
