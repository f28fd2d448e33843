-- ===== src/Base/Cells.antt =====
-- Cells of a list, read after a write, and lists of distinct places.
use Prim.Native.Nat.{ℕ, zero, suc, ◌<◌}
use mathlib.Core.Path.{◌≡◌, refl, sym, ap, ◌∙◌}
use mathlib.Core.Logic.{◌≢◌, ◌⊎◌, inl, inr}
use mathlib.Core.Bool.{Bool, true, false}
use mathlib.Core.Option.{some}
use mathlib.Core.List.{List, [], ◌∷◌, ◌++◌}
use native.Mathlib.Omega.{arith}
use udplb.Base.Tests.{nat_beq, nat_beq_iff, Bool-cases, some_same, if◌then◌else◌}
use udplb.Base.Lists.{length, get_elem?, set}

module _ {ℓ} {A : Type ℓ} where
  pub get_elem?_lt_length : (xs : List A) (i : ℕ) (a : A) → get_elem? xs i ≡ some a → i < length xs
  get_elem?_lt_length [] i a h = ground arith
  get_elem?_lt_length (x ∷ xs) zero a h = omega arith
  get_elem?_lt_length (x ∷ xs) (suc i) a h = omega (arith, get_elem?_lt_length xs i a h)

  pub get_elem?-set_self :
      (xs : List A) (i : ℕ) (v : A) → i < length xs → get_elem? (set xs i v) i ≡ some v
  get_elem?-set_self [] i v h = absurd (omega arith)
  get_elem?-set_self (x ∷ xs) zero v h = refl
  get_elem?-set_self (x ∷ xs) (suc i) v h = get_elem?-set_self xs i v (omega arith)

  pub get_elem?-set_ne :
      (xs : List A) (i j : ℕ) (v : A) → i ≢ j → get_elem? (set xs i v) j ≡ get_elem? xs j
  get_elem?-set_ne [] i j v h = refl
  get_elem?-set_ne (x ∷ xs) zero zero v h = absurd (h refl)
  get_elem?-set_ne (x ∷ xs) zero (suc j) v h = refl
  get_elem?-set_ne (x ∷ xs) (suc i) zero v h = refl
  get_elem?-set_ne (x ∷ xs) (suc i) (suc j) v h = get_elem?-set_ne xs i j v (λ e. h (ap suc e))

abbrev pub elem : ℕ → List ℕ → Bool
elem i [] = false
elem i (j ∷ is) = if nat_beq i j then true else elem i is

-- Each place once.
abbrev pub Distinct : List ℕ → Type 0
Distinct [] = Unit
Distinct (i ∷ is) = (elem i is ≡ false) × Distinct is

nat_beq_ne : (a b : ℕ) → a ≢ b → nat_beq a b ≡ false
nat_beq_ne a b h = ground arith

nat_beq-suc : (a b : ℕ) → nat_beq a b ≡ nat_beq (suc a) (suc b)
nat_beq-suc a b = ground arith

module _ {ℓ} {A : Type ℓ} where
  pub get_elem?-set :
      (xs : List A) (i j : ℕ) (v : A)
      → i < length xs
      → get_elem? (set xs i v) j ≡ (if nat_beq j i then some v else get_elem? xs j)
  get_elem?-set [] i j v h = absurd (omega arith)
  get_elem?-set (x ∷ xs) zero zero v h = refl
  get_elem?-set (x ∷ xs) zero (suc j) v h =
      rw (nat_beq_ne (suc j) 0 (λ e. omega arith), if◌then◌else◌) refl
  get_elem?-set (x ∷ xs) (suc i) zero v h =
      rw (nat_beq_ne 0 (suc i) (λ e. omega arith), if◌then◌else◌) refl
  get_elem?-set (x ∷ xs) (suc i) (suc j) v h =
      get_elem?-set xs i j v (omega arith) ∙ rw (nat_beq-suc j i) refl

  pub get_elem?-snoc :
      (xs : List A) (i : ℕ) (v : A)
      → get_elem? (xs ++ (v ∷ [])) i ≡ (if nat_beq i (length xs) then some v else get_elem? xs i)
  get_elem?-snoc [] zero v = refl
  get_elem?-snoc [] (suc i) v = rw (nat_beq_ne (suc i) 0 (λ e. omega arith), if◌then◌else◌) refl
  get_elem?-snoc (x ∷ xs) zero v =
      rw (nat_beq_ne 0 (suc (length xs)) (λ e. omega arith), if◌then◌else◌) refl
  get_elem?-snoc (x ∷ xs) (suc i) v = get_elem?-snoc xs i v ∙ rw (nat_beq-suc i (length xs)) refl

pub elem-snoc :
    (i n : ℕ) (is : List ℕ) → elem i (is ++ (n ∷ [])) ≡ (if nat_beq i n then true else elem i is)
elem-snoc i n [] = refl
elem-snoc i n (j ∷ is) = ground (arith, elem-snoc i n is)

pub Distinct-snoc :
    (n : ℕ) (is : List ℕ) → elem n is ≡ false → Distinct is → Distinct (is ++ (n ∷ []))
Distinct-snoc n [] out d = (refl, tt)
Distinct-snoc n (j ∷ is) out d =
    (ground (arith, elem-snoc j n is), Distinct-snoc n is (ground arith) d.1)

module _ {ℓ} {A : Type ℓ} where
  -- A cell after a write is the one written, or was there before.
  pub set-cases :
      (xs : List A) (i j : ℕ) (old new a : A)
      → get_elem? xs i ≡ some old
      → get_elem? (set xs i new) j ≡ some a
      → ((i ≡ j) × (new ≡ a)) ⊎ ((i ≢ j) × (get_elem? xs j ≡ some a))
  set-cases xs i j old new a at_i at_j = elim (Bool-cases (nat_beq i j)) [
    | inl e ↦
        let same = (nat_beq_iff i j).0 e in
        inl (
          same,
          some_same (
              sym (get_elem?-set_self xs i new (get_elem?_lt_length xs i old at_i))
              ∙ ap (λ k. get_elem? (set xs i new) k) same
              ∙ at_j),
        )
    | inr e ↦
        let ne : i ≢ j = λ p. let h = sym e ∙ (nat_beq_iff i j).1 p in ground arith in
        inr (ne, sym (get_elem?-set_ne xs i j new ne) ∙ at_j)
  ]
