-- ===== src/Rlt/NaiveFib.antt =====
-- `NaiveFibLookupTable`. The Go maps `distribution` and `banList` have the keys 0 to n-1; they are
-- lists indexed by them, and the counter `banned`, which is never read, is left out.
pub mod Equiv
use udplb.Base.{
  ℕ, zero, suc, ◌+◌, ◌-◌, ◌/◌, ◌%◌, ◌^◌, Bool, true, false, Option, none, some, List, [], ◌∷◌, ltb,
  if◌then◌else◌, get_or, set, replicate,
}

abbrev pub fib : List ℕ
fib =
    1 ∷ 1 ∷ 2 ∷ 3 ∷ 5 ∷ 8 ∷ 13 ∷ 21 ∷ 34 ∷ 55 ∷ 89 ∷ 144 ∷ 233 ∷ 377 ∷ 610 ∷ 987 ∷ 1587 ∷ 2584
    ∷ 4181 ∷ []

abbrev pub len_fib : ℕ
len_fib = 19

-- uint32 `x -= 1`.
abbrev pub dec32 : ℕ → ℕ
dec32 x = (x + 2 ^ 32 - 1) % 2 ^ 32

pub record Cursor : Type 0 where
  pub j : ℕ
  pub k : ℕ
  pub current_entry : ℕ
  pub distribution : List ℕ
  pub ban_list : List Bool

-- The `nextentry` label. The jump back to it is taken at most once before `current_entry` is below
-- `n`, unless n is 1 and the only entry is banned: then it never ends.
unfoldable pub next_entry : ℕ → ℕ → Cursor → Option Cursor
next_entry zero n c = none
next_entry (suc fuel) n c =
    let wrapped = record c {
      k = 0;
      current_entry = 0;
      j = if ltb (c.j + 1) (len_fib - 1) then 0 else c.j + 1;
    } in
    let again = next_entry fuel n wrapped in
    if ltb (c.current_entry + 1) n
    then some (record c { k = 0; current_entry = c.current_entry + 1 })
    else if get_or c.ban_list 0 false
    then again
    else some wrapped

abbrev pub decremented : Cursor → Cursor
decremented c = record c {
  distribution =
      set c.distribution c.current_entry (dec32 (get_or c.distribution c.current_entry 0));
}

-- One round of the loop over the table, after `out[i] = currentEntry`.
unfoldable pub naive_step : ℕ → Cursor → Option Cursor
unfolding next_entry
naive_step n c =
    let d = decremented c in
    if ltb (get_or d.distribution c.current_entry 0) 1
    then next_entry 2 n (record d { ban_list = set d.ban_list d.current_entry true })
    else if ltb (d.k + 1) (get_or fib d.j 0)
    then some (record d { k = d.k + 1 })
    else next_entry 2 n (record d { k = d.k + 1 })

-- `k` rounds left.
unfoldable pub naive_from : ℕ → ℕ → Cursor → Option (List ℕ)
naive_from n zero c = some []
naive_from n (suc k) c = elim (naive_step n c) [
  | none ↦ none
  | some c' ↦ elim (naive_from n k c') [ none ↦ none | some out ↦ some (c.current_entry ∷ out) ]
]

-- The cursor before the first round.
abbrev pub start_cursor : ℕ → ℕ → Cursor
start_cursor n share = record {
  j = 0;
  k = 0;
  current_entry = 0;
  distribution = replicate n share;
  ban_list = replicate n false;
}

unfoldable pub naive_fib_lookup_table : ℕ → ℕ → Option (List ℕ)
unfolding naive_from naive_step
naive_fib_lookup_table n m = naive_from n m (start_cursor n ((m / n + 1) % 2 ^ 32))
