-- ===== src/Rlt/Robust/Cells.antt =====
-- Counts of free cells and of shares.
use native.Mathlib.Nat.{suc-mul}
use udplb.Base.{
  ℕ, zero, suc, ◌+◌, ◌*◌, ◌<◌, ◌≤◌, ◌≡◌, refl, Option, none, some, List, [], ◌∷◌, arith, get_or,
  get_elem?, set, replicate, length,
}

abbrev pub sum : List ℕ → ℕ
sum [] = 0
sum (x ∷ xs) = x + sum xs

abbrev pub free : List (Option ℕ) → ℕ
free [] = 0
free (none ∷ lup) = suc (free lup)
free (some v ∷ lup) = free lup

pub sum-set :
    (xs : List ℕ) (j v : ℕ) → j < length xs → sum (set xs j v) + get_or xs j 0 ≡ sum xs + v
sum-set [] j v h = absurd (omega arith)
sum-set (x ∷ xs) zero v h = omega arith
sum-set (x ∷ xs) (suc j) v h = omega (arith, sum-set xs j v (omega arith))

pub get_or_le_sum : (xs : List ℕ) (j : ℕ) → get_or xs j 0 ≤ sum xs
get_or_le_sum [] j = omega arith
get_or_le_sum (x ∷ xs) zero = omega arith
get_or_le_sum (x ∷ xs) (suc j) = omega (arith, get_or_le_sum xs j)

pub sum-replicate : (n v : ℕ) → sum (replicate n v) ≡ n * v
sum-replicate zero v = omega arith
sum-replicate (suc n) v = omega (arith, sum-replicate n v, suc-mul n v)

pub free-replicate : (m : ℕ) → free (replicate m none) ≡ m
free-replicate zero = refl
free-replicate (suc m) = omega (arith, free-replicate m)

pub free_le_length : (lup : List (Option ℕ)) → free lup ≤ length lup
free_le_length [] = omega arith
free_le_length (none ∷ lup) = omega (arith, free_le_length lup)
free_le_length (some v ∷ lup) = omega (arith, free_le_length lup)

-- A write takes one free cell at most, and one if the cell was free.
pub free-set_le : (lup : List (Option ℕ)) (k j : ℕ) → free lup ≤ suc (free (set lup k (some j)))
free-set_le [] k j = omega arith
free-set_le (none ∷ lup) zero j = omega arith
free-set_le (some v ∷ lup) zero j = omega arith
free-set_le (none ∷ lup) (suc k) j = omega (arith, free-set_le lup k j)
free-set_le (some v ∷ lup) (suc k) j = omega (arith, free-set_le lup k j)

-- A free cell, if there is one.
pub free_cell :
    (lup : List (Option ℕ))
    → 0 < free lup
    → (k : ℕ) × (get_elem? lup k ≡ some none) × (k < length lup)
free_cell [] h = absurd (omega arith)
free_cell (none ∷ lup) h = (0, refl, omega arith)
free_cell (some v ∷ lup) h = let (k, e, b) = free_cell lup h in (suc k, e, omega arith)
