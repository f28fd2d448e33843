-- ===== src/Rlt/Tests.antt =====
-- Runs of the lookup tables, and their theorems at concrete inputs.
use udplb.Base.{
  pos, ℕ, ◌+◌, ◌≡◌, refl, true, false, some, List, [], ◌∷◌, arith, get_or, get_elem?, replicate,
}
use Prim.Native.Nat.{◌%◌}
use udplb.Types.{Backend, available}
use udplb.Rlt.Simple.{simple_lookup_table}
use udplb.Rlt.NaiveFib.{naive_fib_lookup_table}
use udplb.Rlt.NaiveFib.Equiv.{naive_fib_lookup_table-simple}
use udplb.Rlt.Reverse.{
  Fill, rounds, fill_remaining, coordinates_of, start_fill, reverse_coordinates_lookup_table,
}
use udplb.Rlt.Reverse.Bounds.{IsTable, reverse_coordinates_lookup_table-IsTable}
use udplb.Rlt.Reverse.Leftover.{NotIn, fill_remaining-round_robin}
use udplb.Rlt.Reverse.Quota.{Accounts, rounds-Accounts}

naive_fib_run : naive_fib_lookup_table 3 7 ≡ some (0 ∷ 1 ∷ 2 ∷ 0 ∷ 1 ∷ 2 ∷ 0 ∷ [])
unfolding naive_fib_lookup_table
naive_fib_run = refl

naive_fib_lookup_table-simple_example : naive_fib_lookup_table 3 7 ≡ simple_lookup_table 3 7
naive_fib_lookup_table-simple_example =
    naive_fib_lookup_table-simple 3 7 (omega arith) (omega arith)

abbrev backend : ℕ → Backend
backend i = record {
  id = replicate 16 i;
  spec = record {
    ip = 10 ∷ 0 ∷ 0 ∷ i ∷ [];
    port = pos 9000;
    mac_addr = replicate 6 i;
    state = available;
  };
  status = record { state = available };
  coordinates = (i + 1) ∷ (i + 2) ∷ (i + 3) ∷ (i + 4) ∷ [];
}

abbrev three : List Backend
three = backend 1 ∷ backend 2 ∷ backend 3 ∷ []

reverse_coordinates_lookup_table-IsTable_example :
    (out : List ℕ) × (reverse_coordinates_lookup_table (λ ks. ks) three 7 ≡ some out)
    × IsTable 3 7 out
reverse_coordinates_lookup_table-IsTable_example =
    reverse_coordinates_lookup_table-IsTable (λ ks. ks) three 7 (omega arith) (omega arith)

rounds-Accounts_example :
    (f : Fill) × (rounds 8 7 (coordinates_of three) 7 (start_fill 3 7) ≡ some f) × Accounts 3 2 f
rounds-Accounts_example = rounds-Accounts three 7

fill_remaining-round_robin_example :
    ((p k : ℕ)
      → get_elem? (4 ∷ 1 ∷ []) p ≡ some k
      → get_or (fill_remaining 2 0 (4 ∷ 1 ∷ []) (replicate 7 0)) k 0 ≡ p % 2)
    × ((j : ℕ)
        → NotIn j (4 ∷ 1 ∷ [])
        → get_or (fill_remaining 2 0 (4 ∷ 1 ∷ []) (replicate 7 0)) j 0 ≡ get_or (replicate 7 0) j 0)
fill_remaining-round_robin_example =
    fill_remaining-round_robin 2 (4 ∷ 1 ∷ []) (replicate 7 0) (omega arith) (omega arith)
      ((omega arith, tt), (tt, tt)) (omega arith)

-- The last cell of the share of backend 0, and two free cells.
abbrev nearly : Fill
nearly = record {
  out = 0 ∷ 0 ∷ 1 ∷ [];
  unset = true ∷ true ∷ false ∷ [];
  distribution = 1 ∷ 0 ∷ [];
}
