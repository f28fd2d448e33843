-- ===== src/Rlt/Simple.antt =====
-- `SimpleLookupTable`.
use udplb.Base.{ℕ, zero, suc, ◌+◌, ◌%◌, Option, none, some, List, [], ◌∷◌, nat_beq, if◌then◌else◌}

-- The loop from `i` on, with `k` rounds left; `n` is the number of backends.
unfoldable pub simple_from : ℕ → ℕ → ℕ → List ℕ
simple_from n i zero = []
simple_from n i (suc k) = (i % n) ∷ simple_from n (i + 1) k

-- With no backends `i % 0` panics in the first round, if there is one.
unfoldable pub simple_lookup_table : ℕ → ℕ → Option (List ℕ)
simple_lookup_table n zero = some []
simple_lookup_table n (suc m) = if nat_beq n 0 then none else some (simple_from n 0 (suc m))
