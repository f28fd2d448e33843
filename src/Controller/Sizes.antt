-- ===== src/Controller/Sizes.antt =====
-- The size of the lookup table.
use Prim.Native.Nat.{◌*◌}
use udplb.Base.{ℕ, ◌^◌, ◌<◌, ◌≤◌, ◌≡◌, arith, All}
use udplb.Controller.{lookup_table_primes, compute_lookup_table_size}

-- Up to 398 backends the size is at least twice their number, and every smaller prime of the list is
-- too small; beyond that the size is 797.
compute_lookup_table_size-least :
    (n : ℕ)
    → n < 2 ^ 31
    → let size = compute_lookup_table_size n in
      (n ≤ 398 → (2 * n ≤ size) × All (λ p. p < size → p < 2 * n) lookup_table_primes)
      × (398 < n → size ≡ 797)
unfolding compute_lookup_table_size
compute_lookup_table_size-least n h = ground arith
