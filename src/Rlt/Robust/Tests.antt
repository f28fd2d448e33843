-- ===== src/Rlt/Robust/Tests.antt =====
-- Runs of the robust lookup tables, and their theorem at a concrete input.
use udplb.Base.{pos, ℕ, ◌≡◌, refl, none, some, List, [], ◌∷◌, arith, replicate, ◌+◌}
use udplb.Types.{Backend, available}
use udplb.Rlt.Reverse.Bounds.{IsTable}
use udplb.Rlt.Robust.{find_slot, robust_simple_lookup_table, robust_fib_lookup_table}
use udplb.Rlt.Robust.Table.{robust_tables-IsTable}

abbrev at_coordinate : ℕ → Backend
at_coordinate c = record {
  id = replicate 16 c;
  spec = record {
    ip = 10 ∷ 0 ∷ 0 ∷ c ∷ [];
    port = pos 9000;
    mac_addr = replicate 6 c;
    state = available;
  };
  status = record { state = available };
  coordinates = c ∷ (c + 1) ∷ (c + 2) ∷ (c + 3) ∷ [];
}

abbrev two : List Backend
two = at_coordinate 3 ∷ at_coordinate 12 ∷ []

simple_table_run : robust_simple_lookup_table two 7 ≡ some (0 ∷ 1 ∷ 0 ∷ 0 ∷ 0 ∷ 1 ∷ 1 ∷ [])
unfolding robust_simple_lookup_table
simple_table_run = refl

fib_table_run : robust_fib_lookup_table two 7 ≡ some (0 ∷ 1 ∷ 0 ∷ 0 ∷ 0 ∷ 1 ∷ 1 ∷ [])
unfolding robust_fib_lookup_table
fib_table_run = refl

-- With more backends than entries the search has no end.
full_run : find_slot 40 2 (some 0 ∷ some 1 ∷ []) 1 ≡ none
unfolding find_slot
full_run = refl

more_backends_run : robust_simple_lookup_table (at_coordinate 3 ∷ two) 2 ≡ none
unfolding robust_simple_lookup_table
more_backends_run = refl

robust_tables-IsTable_example :
    ((out : List ℕ) × (robust_simple_lookup_table two 7 ≡ some out) × IsTable 2 7 out)
    × ((out : List ℕ) × (robust_fib_lookup_table two 7 ≡ some out) × IsTable 2 7 out)
robust_tables-IsTable_example =
    robust_tables-IsTable two 7 (omega arith) (omega arith) (omega arith)
