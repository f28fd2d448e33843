-- ===== src/Rlt/Reverse/Quota.antt =====
-- The shares of the backends while the primes are tried.
use udplb.Base.{
  ℕ, zero, suc, ◌+◌, ◌-◌, ◌/◌, ◌%◌, ◌^◌, ◌<◌, ◌≡◌, ◌≢◌, refl, ◌∙◌, ap, sym, Bool, true, false, some,
  List, [], ◌∷◌, arith, get_or, set, replicate, length, length-set, length-replicate, get_or-set,
  get_or-set_ne, get_or-replicate_lt, nat_beq, if◌then◌else◌,
}
use udplb.Types.{Backend}
use udplb.Rlt.Reverse.{Fill, place, rounds, coordinates_of, start_fill, dec32}
use udplb.Rlt.Reverse.Bounds.{rounds-keeps, length-coordinates_of}

-- How many cells backend `i` has been given.
abbrev pub assigned : ℕ → List ℕ → List Bool → ℕ
assigned i [] us = 0
assigned i (o ∷ os) [] = 0
assigned i (o ∷ os) (u ∷ us) = (if u then 0 else if nat_beq o i then 1 else 0) + assigned i os us

assigned-set :
    (i j idx : ℕ) (out : List ℕ) (unset : List Bool)
    → length out ≡ length unset
    → get_or unset idx false ≡ true
    → assigned j (set out idx i) (set unset idx false)
      ≡ assigned j out unset + (if nat_beq i j then 1 else 0)
assigned-set i j idx [] [] l h = cc
assigned-set i j idx [] (u ∷ us) l h = absurd (omega arith)
assigned-set i j idx (o ∷ os) [] l h = absurd (omega arith)
assigned-set i j zero (o ∷ os) (u ∷ us) l h = ground arith
assigned-set i j (suc idx) (o ∷ os) (u ∷ us) l h =
    omega (arith, assigned-set i j idx os us (omega arith) h)

assigned-fresh : (i m : ℕ) → assigned i (replicate m 0) (replicate m true) ≡ 0
assigned-fresh i zero = refl
assigned-fresh i (suc m) = omega (arith, assigned-fresh i m)

-- What a backend may still get and what it has make up its share, as uint32 numbers.
pub record Accounts (n share : ℕ) (f : Fill) : Type 0 where
  pub parallel : length f.out ≡ length f.unset
  pub backends : length f.distribution ≡ n
  pub sums :
      (i : ℕ)
      → i < n
      → (get_or f.distribution i 0 + assigned i f.out f.unset) % 2 ^ 32 ≡ share % 2 ^ 32

place-sums :
    (n share i idx : ℕ) (f : Fill)
    → i < n
    → Accounts n share f
    → (j : ℕ) → j < n
    → (get_or (place i idx f).distribution j 0
          + assigned j (place i idx f).out (place i idx f).unset)
        % 2 ^ 32
      ≡ share % 2 ^ 32
unfolding place
place-sums n share i idx f h a j hj = ground (
  arith,
  a.parallel,
  a.backends,
  a.sums j hj,
  assigned-set i j idx f.out f.unset,
  get_or-set f.distribution i j (dec32 (get_or f.distribution i 0)) 0,
)

place-Accounts :
    (n share i idx : ℕ) (f : Fill) → i < n → Accounts n share f → Accounts n share (place i idx f)
unfolding place
place-Accounts n share i idx f h a = record {
  parallel = ground (arith, a.parallel, length-set f.out idx i, length-set f.unset idx false);
  backends =
      ground (arith, a.backends, length-set f.distribution i (dec32 (get_or f.distribution i 0)));
  sums = place-sums n share i idx f h a;
}

-- When the loops over the primes end, what each backend may still get and the number of cells that it
-- was given add up to its share `m / n`, modulo 2 ^ 32.
pub rounds-Accounts :
    (backends : List Backend) (m : ℕ)
    → let n = length backends in
      (f : Fill) × (rounds (m + 1) m (coordinates_of backends) m (start_fill n m) ≡ some f)
      × Accounts n (m / n) f
rounds-Accounts backends m =
    let n : ℕ = length backends in
    rounds-keeps (Accounts n (m / n)) n (place-Accounts n (m / n)) (m + 1) m m
      (coordinates_of backends) (start_fill n m) (omega arith) (length-coordinates_of backends)
      (record {
        parallel = length-replicate m 0 ∙ sym (length-replicate m true);
        backends = length-replicate n (m / n);
        sums = λ i hi.
            ap (λ x. x % 2 ^ 32)
              (omega (arith, get_or-replicate_lt n i (m / n) 0 hi, assigned-fresh i m));
      })

-- Nothing stops a share at 0 within one coordinate: a backend that may get one cell more gets the next
-- two free multiples of the prime, and its share wraps to the greatest uint32.
place-wraps :
    (i a b : ℕ) (f : Fill)
    → i < length f.distribution
    → get_or f.distribution i 0 ≡ 1
    → a ≢ b
    → get_or f.unset a false ≡ true
    → get_or f.unset b false ≡ true
    → get_or (place i b (place i a f)).distribution i 0 ≡ 2 ^ 32 - 1
unfolding place
place-wraps i a b f h d ne ha hb = ground (
  arith,
  get_or-set_ne f.unset a b false false ne,
  length-set f.distribution i 0,
  get_or-set f.distribution i i 0 0 h,
  get_or-set (set f.distribution i 0) i i (2 ^ 32 - 1) 0,
)
