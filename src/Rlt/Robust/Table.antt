-- ===== src/Rlt/Robust/Table.antt =====
-- Both robust tables end, and hold indices of backends only, if there are not more backends than entries.
use native.Mathlib.Nat.{mod-add-div, le-div_iff_mul-le}
use udplb.Base.{
  ℕ, zero, suc, ◌+◌, ◌-◌, ◌/◌, ◌%◌, ◌^◌, ◌<◌, ◌≤◌, ◌≡◌, refl, ap, ◌∙◌, false, Option, none, some,
  List, [], ◌∷◌, arith, get_or-replicate_lt, get_elem?, set, length, length-set, length-replicate,
  All, All-set, All-replicate, Bool-cases, inl, inr, if◌then◌else◌, ltb, lt→ltb, nat_beq,
}
use udplb.Types.{Backend}
use udplb.Rlt.Reverse.Bounds.{IsTable}
use udplb.Rlt.NaiveFib.{fib}
use udplb.Rlt.Robust.{
  Slots, fill_first, start_slots, simple_rounds, fib_rounds, fill_rest, is_taken, output, finished,
  fill_and_output, robust_simple_lookup_table, robust_fib_lookup_table,
}
use udplb.Rlt.Robust.Cells.{sum-replicate, free-replicate, free_le_length}
use udplb.Rlt.Robust.Search.{IsEntry, Sound}
use udplb.Rlt.Robust.Rounds.{simple_rounds-Sound}
use udplb.Rlt.Robust.Keeps.{fill_first-Sound, fib_rounds-Sound}

module _ (n m : ℕ) (small : m < 2 ^ 32) where
  fill_rest-entries :
      (rem i k j : ℕ) (lup : List (Option ℕ))
      → i + k ≡ n
      → n ≤ m
      → j ≤ i
      → length lup ≡ m
      → All (IsEntry n) lup
      → (out : List (Option ℕ)) × (fill_rest m rem i k j lup ≡ some out)
        × (length out ≡ m)
        × All (IsEntry n) out
  unfolding fill_rest
  fill_rest-entries rem i zero j lup l g ji len a = (lup, refl, len, a)
  fill_rest-entries rem i (suc k) j lup l g ji len a =
      elim (Bool-cases (ltb ((rem + 2 ^ 32 - 1) % 2 ^ 32) j)) [
        | inl e ↦ (lup, rw (e, if◌then◌else◌) refl, len, a)
        | inr e ↦ elim (Bool-cases (is_taken (get_elem? lup i))) [
          | inl t ↦
              let (out, r, len', a') =
                fill_rest-entries rem (i + 1) k j lup (omega arith) g (omega arith) len a in
              (out, rw (e, t, if◌then◌else◌) r, len', a')
          | inr t ↦
              let (out, r, len', a') =
                fill_rest-entries rem (i + 1) k (j + 1) (set lup i (some j)) (omega arith) g
                  (omega arith) (length-set lup i (some j) ∙ len)
                  (All-set (IsEntry n) lup i (some j) a (omega arith)) in
              (out, rw (e, t, lt→ltb i m (omega arith), if◌then◌else◌) r, len', a')
        ]
      ]

output-IsTable :
    (n m : ℕ) (lup : List (Option ℕ))
    → 0 < n
    → length lup ≡ m
    → All (IsEntry n) lup
    → IsTable n m (output lup)
output-IsTable n m lup h l a = (length-output lup ∙ l, entries lup a)
  where
    length-output : (lup : List (Option ℕ)) → length (output lup) ≡ length lup
    length-output [] = refl
    length-output (none ∷ lup) = ap suc (length-output lup)
    length-output (some v ∷ lup) = ap suc (length-output lup)

    entries : (lup : List (Option ℕ)) → All (IsEntry n) lup → All (λ i. i < n) (output lup)
    entries [] a = tt
    entries (none ∷ lup) a = (h, entries lup a.1)
    entries (some v ∷ lup) a = (a.0, entries lup a.1)

start_slots-Sound : (n m : ℕ) → 0 < n → 0 < m → Sound n m (start_slots n m)
start_slots-Sound n m hn hm = record {
  cells = length-replicate m none;
  entries = All-replicate (IsEntry n) m none tt;
  inside = All-replicate (λ x. x < m) n 0 hm;
  shares = length-replicate n (m / n);
  bans = length-replicate n false;
  room = omega (arith, sum-replicate n (m / n), free-replicate m, mod-add-div m n);
}

fill_and_output-IsTable :
    (n m : ℕ) (o : Option Slots)
    → 0 < n
    → n ≤ m
    → m < 2 ^ 32
    → (s : Slots) × (o ≡ some s) × Sound n m s
    → (out : List ℕ) × (fill_and_output m n o ≡ some out) × IsTable n m out
fill_and_output-IsTable n m o hn g small (s, e, h) =
    let (lup, r, len, a) =
      fill_rest-entries n m small (m % n) 0 n 0 s.lup (omega arith) g (omega arith) h.cells
        h.entries in
    (output lup, rw (e, fill_and_output, r, finished) refl, output-IsTable n m lup hn len a)

module _ (backends : List Backend) (m : ℕ) (some_backend : 0 < length backends)
    (enough : length backends ≤ m) (small : m < 2 ^ 32) where
  first_filled : Slots
  first_filled = fill_first m 0 backends (start_slots (length backends) m)

  first_filled-Sound : Sound (length backends) m first_filled
  unfolding first_filled
  first_filled-Sound =
      let n : ℕ = length backends in
      fill_first-Sound n m small (omega arith) (m / n) 0 backends (start_slots n m)
        ((le-div_iff_mul-le some_backend).1 (omega arith)) (omega arith)
        (λ i g l. get_or-replicate_lt n i (m / n) 0 l)
        (start_slots-Sound n m some_backend (omega arith))

  -- For one backend or more, not more of them than entries, and fewer than 2^32 entries,
  -- `RobustSimpleLookupTable` and `RobustFibLookupTable` end, and give tables of `m` indices of the
  -- backends, whatever their coordinates are.
  pub robust_tables-IsTable :
      ((out : List ℕ) × (robust_simple_lookup_table backends m ≡ some out)
        × IsTable (length backends) m out)
      × ((out : List ℕ) × (robust_fib_lookup_table backends m ≡ some out)
          × IsTable (length backends) m out)
  unfolding robust_simple_lookup_table robust_fib_lookup_table first_filled
  robust_tables-IsTable =
      let n : ℕ = length backends in
      let no_n : nat_beq n 0 ≡ false = ground arith in
      let no_m : nat_beq m 0 ≡ false = ground arith in
      let h : Sound n m first_filled = first_filled-Sound in
      (
        rw (no_n, no_m, if◌then◌else◌)
            (fill_and_output-IsTable n m (simple_rounds (m + 2) m n first_filled) some_backend
              enough small
              (simple_rounds-Sound n m small (omega arith) (m + 2) first_filled
                (omega (arith, h.room, free_le_length first_filled.lup, h.cells)) h)),
        rw (no_n, no_m, if◌then◌else◌)
            (fill_and_output-IsTable n m (fib_rounds m n fib first_filled) some_backend enough small
              (fib_rounds-Sound n m small (omega arith) fib first_filled h)),
      )
