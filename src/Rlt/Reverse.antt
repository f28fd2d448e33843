-- ===== src/Rlt/Reverse.antt =====
-- `ReverseCoordinatesLookupTable`, the table that the controller installs.
-- The Go maps `unset` (keys below `m`) and `distribution` (keys below `n`) are lists indexed by their
-- keys. Go leaves open in which order `for k := range unset` visits the keys: the order is the
-- parameter `order`, which gets the keys in increasing order.
pub mod Bounds
pub mod Leftover
pub mod Quota
use udplb.Base.{
  ℕ, zero, suc, ◌+◌, ◌-◌, ◌*◌, ◌/◌, ◌%◌, ◌^◌, Bool, true, false, ◌||◌, Option, none, some, List, [],
  ◌∷◌, ltb, if◌then◌else◌, get_or, set, replicate, length, map,
}
use udplb.Types.{Backend, n_coordinates}

abbrev pub primes : List ℕ
primes =
    2 ∷ 3 ∷ 5 ∷ 7 ∷ 13 ∷ 17 ∷ 19 ∷ 31 ∷ 61 ∷ 89 ∷ 107 ∷ 127 ∷ 521 ∷ 607 ∷ 1279 ∷ 2203 ∷ 2281 ∷ 3217
    ∷ 4253 ∷ 4423 ∷ 9689 ∷ 9941 ∷ 11213 ∷ 19937 ∷ 21701 ∷ 23209 ∷ 44497 ∷ []

-- `nextPrime`: the last of the first `i` primes that is below `current`.
unfoldable pub next_prime_from : ℕ → ℕ → Option ℕ
next_prime_from zero current = none
next_prime_from (suc i) current =
    let rest = next_prime_from i current in
    if ltb (get_or primes i 0) current then some (get_or primes i 0) else rest

unfoldable pub next_prime : ℕ → Option ℕ
unfolding next_prime_from
next_prime current = next_prime_from 27 current

-- `isNotFullyDistributed`.
unfoldable pub is_not_fully_distributed : List ℕ → Bool
is_not_fully_distributed [] = false
is_not_fully_distributed (v ∷ vs) = ltb 0 v || is_not_fully_distributed vs

-- uint32 `x -= 1`.
abbrev pub dec32 : ℕ → ℕ
dec32 x = (x + 2 ^ 32 - 1) % 2 ^ 32

pub record Fill : Type 0 where
  pub out : List ℕ
  pub unset : List Bool
  pub distribution : List ℕ

-- The body of the loop over the multiples of a prime, at index `idx` for backend `i`.
unfoldable pub place : ℕ → ℕ → Fill → Fill
place i idx f =
    if get_or f.unset idx false
    then record {
      out = set f.out idx i;
      unset = set f.unset idx false;
      distribution = set f.distribution i (dec32 (get_or f.distribution i 0));
    }
    else f

-- `for k := range m / prime`, from `k` on, with `r` rounds left.
unfoldable pub place_multiples : ℕ → ℕ → ℕ → ℕ → Fill → Fill
unfolding place
place_multiples i base k zero f = f
place_multiples i base k (suc r) f =
    place_multiples i base (k + 1) r (place i ((k + 1) * base % 2 ^ 32) f)

-- The loop over the coordinates of backend `i`.
unfoldable pub place_coordinates : ℕ → ℕ → ℕ → List ℕ → Fill → Fill
unfolding place_multiples
place_coordinates m prime i [] f = f
place_coordinates m prime i (c ∷ cs) f =
    place_coordinates m prime i cs (
      if ltb (get_or f.distribution i 0) 1
      then f
      else place_multiples i (c % prime) 0 (m / prime) f)

-- The loop over the backends, from backend `i` on.
unfoldable pub place_backends : ℕ → ℕ → ℕ → List (List ℕ) → Fill → Fill
unfolding place_coordinates
place_backends m prime i [] f = f
place_backends m prime i (cs ∷ rest) f =
    place_backends m prime (i + 1) rest (place_coordinates m prime i cs f)

-- The loop over the primes. `none` means that the fuel did not suffice.
unfoldable pub rounds : ℕ → ℕ → List (List ℕ) → ℕ → Fill → Option Fill
unfolding place_backends next_prime is_not_fully_distributed
rounds zero m coord prime f = none
rounds (suc fuel) m coord prime f =
    let placed = place_backends m prime 0 coord f in
    elim (next_prime prime) [
      | none ↦ some placed
      | some p ↦
          let more = rounds fuel m coord p placed in
          if is_not_fully_distributed placed.distribution then more else some placed
    ]

-- The keys left in `unset`, in increasing order from `i` on.
unfoldable pub unset_keys : ℕ → List Bool → List ℕ
unset_keys i [] = []
unset_keys i (true ∷ bs) = i ∷ unset_keys (i + 1) bs
unset_keys i (false ∷ bs) = unset_keys (i + 1) bs

-- `if i > n-1 { i = 0 }`, where `n-1` is a uint32.
abbrev pub dealt : ℕ → ℕ → ℕ
dealt n i = if ltb ((n + 2 ^ 32 - 1) % 2 ^ 32) i then 0 else i

-- `for k := range unset`: the keys are dealt to the backends in turn.
unfoldable pub fill_remaining : ℕ → ℕ → List ℕ → List ℕ → List ℕ
fill_remaining n i [] out = out
fill_remaining n i (k ∷ ks) out =
    fill_remaining n ((dealt n i + 1) % 2 ^ 32) ks (set out k (dealt n i))

abbrev pub coordinates_of : List Backend → List (List ℕ)
coordinates_of [] = []
coordinates_of (b ∷ bs) = b.coordinates ∷ coordinates_of bs

abbrev pub start_fill : ℕ → ℕ → Fill
start_fill n m = record {
  out = replicate m 0;
  unset = replicate m true;
  distribution = replicate n (m / n);
}

unfoldable pub reverse_coordinates_lookup_table :
    (List ℕ → List ℕ) → List Backend → ℕ → Option (List ℕ)
unfolding rounds unset_keys fill_remaining
reverse_coordinates_lookup_table order backends m =
    let n = length backends in
    elim (rounds (m + 1) m (coordinates_of backends) m (start_fill n m)) [
      | none ↦ none
      | some f ↦ some (fill_remaining n 0 (order (unset_keys 0 f.unset)) f.out)
    ]
