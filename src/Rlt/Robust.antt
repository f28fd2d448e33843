-- ===== src/Rlt/Robust.antt =====
-- `RobustSimpleLookupTable` and `RobustFibLookupTable`. The Go map `lup`, with keys below `m`, is a list
-- of `m` cells, and the maps keyed by backends are lists. `none` is a panic, or a loop for which the fuel
-- did not suffice.
pub mod Cells
pub mod Search
pub mod Keeps
pub mod Rounds
pub mod Table
mod Tests
use udplb.Base.{
  ℕ, zero, suc, ◌+◌, ◌-◌, ◌*◌, ◌/◌, ◌%◌, ◌^◌, Bool, true, false, ◌&&◌, Option, none, some, List, [],
  ◌∷◌, ltb, nat_beq, if◌then◌else◌, get_or, get_elem?, set, replicate, length,
}
use udplb.Types.{Backend}
use udplb.Rlt.Reverse.{dec32}
use udplb.Rlt.NaiveFib.{fib}

-- `M` is `latest`.
pub record Slots : Type 0 where
  pub lup : List (Option ℕ)
  pub latest : List ℕ
  pub distribution : List ℕ
  pub banned : List Bool

-- `if _, ok := lup[k]; ok`.
abbrev pub is_taken : Option (Option ℕ) → Bool
is_taken (some (some v)) = true
is_taken _ = false

-- `if Mj > m-1 { Mj = 0 }`, where `m-1` is a uint32.
abbrev pub back_to_start : ℕ → ℕ → ℕ
back_to_start m mj = if ltb ((m + 2 ^ 32 - 1) % 2 ^ 32) mj then 0 else mj

-- The loop until an empty slot is found.
unfoldable pub find_slot : ℕ → ℕ → List (Option ℕ) → ℕ → Option ℕ
find_slot zero m lup mj = none
find_slot (suc fuel) m lup mj =
    let next = find_slot fuel m lup ((back_to_start m mj + 1) % 2 ^ 32) in
    if is_taken (get_elem? lup (back_to_start m mj)) then next else some (back_to_start m mj)

-- `M[j] = Mj; lup[Mj] = j; distribution[j] -= 1`.
abbrev pub take_slot : ℕ → ℕ → Slots → Slots
take_slot j slot s = record s {
  lup = set s.lup slot (some j);
  latest = set s.latest j slot;
  distribution = set s.distribution j (dec32 (get_or s.distribution j 0));
}

abbrev pub take_found : ℕ → Option ℕ → Slots → Option Slots
take_found j none s = none
take_found j (some slot) s = some (take_slot j slot s)

-- The search of an empty slot for backend `j`: 2 m + 2 steps suffice if there is one.
unfoldable pub take_next : ℕ → ℕ → Slots → Option Slots
unfolding find_slot
take_next m j s =
    take_found j (find_slot (2 * m + 2) m s.lup ((get_or s.latest j 0 + 1) % 2 ^ 32)) s

abbrev pub first_coordinate : Backend → ℕ
first_coordinate b = get_or b.coordinates 0 0

-- The loop that fills the first entry of each backend, from backend `j` on.
unfoldable pub fill_first : ℕ → ℕ → List Backend → Slots → Slots
fill_first m j [] s = s
fill_first m j (b ∷ bs) s = fill_first m (j + 1) bs (take_slot j (first_coordinate b % m) s)

abbrev pub start_slots : ℕ → ℕ → Slots
start_slots n m = record {
  lup = replicate m none;
  latest = replicate n 0;
  distribution = replicate n (m / n);
  banned = replicate n false;
}

abbrev pub ban : ℕ → Slots → Slots
ban j s = record s { banned = set s.banned j true }

-- `uint32(len(banned)) == n`.
abbrev pub all_banned : List Bool → Bool
all_banned [] = true
all_banned (b ∷ bs) = b && all_banned bs

-- One round of `RobustSimpleLookupTable`, from backend `j` on, `k` of them left.
unfoldable pub simple_round : ℕ → ℕ → ℕ → Slots → Option Slots
unfolding take_next
simple_round m j zero s = some s
simple_round m j (suc k) s =
    if ltb (get_or s.distribution j 0) 1
    then simple_round m (j + 1) k (ban j s)
    else elim (take_next m j s) [ none ↦ none | some s' ↦ simple_round m (j + 1) k s' ]

-- `for uint32(len(banned)) != n`.
unfoldable pub simple_rounds : ℕ → ℕ → ℕ → Slots → Option Slots
unfolding simple_round
simple_rounds zero m n s = none
simple_rounds (suc fuel) m n s =
    if all_banned s.banned
    then some s
    else elim (simple_round m 0 n s) [ none ↦ none | some s' ↦ simple_rounds fuel m n s' ]

-- `for range fib[i]`, with `r` rounds left.
unfoldable pub fib_run : ℕ → ℕ → ℕ → Slots → Option Slots
unfolding take_next
fib_run m j zero s = some s
fib_run m j (suc r) s =
    if ltb (get_or s.distribution j 0) 1
    then some (ban j s)
    else elim (take_next m j s) [ none ↦ none | some s' ↦ fib_run m j r s' ]

-- The loop of `RobustFibLookupTable` over the backends, and whether it leaves by `goto exitLoop`.
unfoldable pub fib_round : ℕ → ℕ → ℕ → ℕ → Slots → Option (Bool × Slots)
unfolding fib_run
fib_round m f j zero s = some (false, s)
fib_round m f j (suc k) s =
    if all_banned s.banned
    then some (true, s)
    else if ltb (get_or s.distribution j 0) 1
    then fib_round m f (j + 1) k s
    else elim (fib_run m j f s) [ none ↦ none | some s' ↦ fib_round m f (j + 1) k s' ]

-- The loop over the Fibonacci numbers.
unfoldable pub fib_rounds : ℕ → ℕ → List ℕ → Slots → Option Slots
unfolding fib_round
fib_rounds m n [] s = some s
fib_rounds m n (f ∷ fs) s = elim (fib_round m f 0 n s) [
  | none ↦ none
  | some (true, s') ↦ some s'
  | some (false, s') ↦ fib_rounds m n fs s'
]

-- The loop that fills remaining entries, from `i` on with `k` of them left, and the next backend `j`. A
-- key of `m` or more makes the output loop panic.
unfoldable pub fill_rest : ℕ → ℕ → ℕ → ℕ → ℕ → List (Option ℕ) → Option (List (Option ℕ))
fill_rest m rem i zero j lup = some lup
fill_rest m rem i (suc k) j lup =
    if ltb ((rem + 2 ^ 32 - 1) % 2 ^ 32) j
    then some lup
    else if is_taken (get_elem? lup i)
    then fill_rest m rem (i + 1) k j lup
    else if ltb i m
    then fill_rest m rem (i + 1) k (j + 1) (set lup i (some j))
    else none

-- `out[k] = v`: a cell that is not set keeps the 0 of `make`.
abbrev pub output : List (Option ℕ) → List ℕ
output [] = []
output (none ∷ lup) = 0 ∷ output lup
output (some v ∷ lup) = v ∷ output lup

abbrev pub finished : Option (List (Option ℕ)) → Option (List ℕ)
finished none = none
finished (some lup) = some (output lup)

abbrev pub fill_and_output : ℕ → ℕ → Option Slots → Option (List ℕ)
fill_and_output m n none = none
fill_and_output m n (some s) = finished (fill_rest m (m % n) 0 n 0 s.lup)

-- `RobustSimpleLookupTable`; `m % 0` and a coordinate modulo 0 panic.
unfoldable pub robust_simple_lookup_table : List Backend → ℕ → Option (List ℕ)
unfolding fill_first simple_rounds fill_rest
robust_simple_lookup_table backends m =
    let n = length backends in
    if nat_beq n 0
    then none
    else if nat_beq m 0
    then none
    else fill_and_output m n (simple_rounds (m + 2) m n (fill_first m 0 backends (start_slots n m)))

unfoldable pub robust_fib_lookup_table : List Backend → ℕ → Option (List ℕ)
unfolding fill_first fib_rounds fill_rest
robust_fib_lookup_table backends m =
    let n = length backends in
    if nat_beq n 0
    then none
    else if nat_beq m 0
    then none
    else fill_and_output m n (fib_rounds m n fib (fill_first m 0 backends (start_slots n m)))
