-- ===== src/Rlt/Reverse/Bounds.antt =====
-- `ReverseCoordinatesLookupTable` ends, and every entry of its table is the index of a backend.
use udplb.Base.{
  ℕ, zero, suc, ◌+◌, ◌*◌, ◌/◌, ◌%◌, ◌^◌, ◌<◌, ◌≡◌, refl, ap, ◌∙◌, inl, inr, some, List, [], ◌∷◌,
  arith, ltb, get_or, set, length, length-set, length-replicate, All, All-set, All-replicate,
  Bool-cases, Option-cases,
}
use udplb.Types.{Backend}
use udplb.Rlt.Reverse.{
  Fill, next_prime_from, next_prime, is_not_fully_distributed, place, place_multiples,
  place_coordinates, place_backends, rounds, unset_keys, dealt, fill_remaining, coordinates_of,
  start_fill, reverse_coordinates_lookup_table,
}

next_prime_from-lt : (i current p : ℕ) → next_prime_from i current ≡ some p → p < current
unfolding next_prime_from
next_prime_from-lt zero current p e = cc
next_prime_from-lt (suc i) current p e = ground (arith, next_prime_from-lt i current p)

-- A property of the state of the loops that `place` keeps is kept by all of them.
module _ {ℓ} (P : Fill → Type ℓ) (n : ℕ)
    (keep : (i idx : ℕ) (f : Fill) → i < n → P f → P (place i idx f)) where
  place_multiples-keeps :
      (i base k r : ℕ) (f : Fill) → i < n → P f → P (place_multiples i base k r f)
  unfolding place_multiples
  place_multiples-keeps i base k zero f h p = p
  place_multiples-keeps i base k (suc r) f h p =
      place_multiples-keeps i base (k + 1) r (place i ((k + 1) * base % 2 ^ 32) f) h
        (keep i ((k + 1) * base % 2 ^ 32) f h p)

  place_coordinates-keeps :
      (m prime i : ℕ) (cs : List ℕ) (f : Fill) → i < n → P f → P (place_coordinates m prime i cs f)
  unfolding place_coordinates
  place_coordinates-keeps m prime i [] f h p = p
  place_coordinates-keeps m prime i (c ∷ cs) f h p =
      place_coordinates-keeps m prime i cs _ h
        (elim (Bool-cases (ltb (get_or f.distribution i 0) 1)) [
          | inl e ↦ rw e p
          | inr e ↦ rw e (place_multiples-keeps i (c % prime) 0 (m / prime) f h p)
        ])

  place_backends-keeps :
      (m prime i : ℕ) (coord : List (List ℕ)) (f : Fill)
      → i + length coord ≡ n
      → P f
      → P (place_backends m prime i coord f)
  unfolding place_backends
  place_backends-keeps m prime i [] f h p = p
  place_backends-keeps m prime i (cs ∷ rest) f h p =
      place_backends-keeps m prime (i + 1) rest (place_coordinates m prime i cs f) (omega arith)
        (place_coordinates-keeps m prime i cs f (omega arith) p)

  -- With more fuel than the prime the loop over the primes ends, since each prime is below the last.
  pub rounds-keeps :
      (fuel m prime : ℕ) (coord : List (List ℕ)) (f : Fill)
      → prime < fuel
      → length coord ≡ n
      → P f
      → (f' : Fill) × (rounds fuel m coord prime f ≡ some f') × P f'
  unfolding rounds
  rounds-keeps zero m prime coord f h l p = absurd (omega arith)
  rounds-keeps (suc fuel) m prime coord f h l p =
      let placed : Fill = place_backends m prime 0 coord f in
      let held : P placed = place_backends-keeps m prime 0 coord f (omega arith) p in
      elim (Option-cases (next_prime prime)) [
        | inl e ↦ (placed, rw (e, rounds), held)
        | inr (q, e) ↦ elim (Bool-cases (is_not_fully_distributed placed.distribution)) [
          | inl b ↦
              let (f', r, k) =
                rounds-keeps fuel m q coord placed (omega (arith, next_prime_from-lt 27 prime q e))
                  l held in
              (f', rw (e, rounds, b) r, k)
          | inr b ↦ (placed, rw (e, rounds, b), held)
        ]
      ]

-- A table of `m` indices of the `n` backends.
abbrev pub IsTable : ℕ → ℕ → List ℕ → Type 0
IsTable n m out = (length out ≡ m) × All (λ i. i < n) out

place-IsTable :
    (n m i idx : ℕ) (f : Fill) → i < n → IsTable n m f.out → IsTable n m (place i idx f).out
unfolding place
place-IsTable n m i idx f h t =
    ground (arith, length-set f.out idx i, All-set (λ j. j < n) f.out idx i t.1 h)

fill_remaining-IsTable :
    (n m i : ℕ) (ks out : List ℕ)
    → 0 < n
    → n < 2 ^ 32
    → IsTable n m out
    → IsTable n m (fill_remaining n i ks out)
unfolding fill_remaining
fill_remaining-IsTable n m i [] out h g t = t
fill_remaining-IsTable n m i (k ∷ ks) out h g t =
    fill_remaining-IsTable n m ((dealt n i + 1) % 2 ^ 32) ks (set out k (dealt n i)) h g (
      length-set out k (dealt n i) ∙ t.0,
      All-set (λ j. j < n) out k (dealt n i) t.1 (ground arith),
    )

pub length-coordinates_of : (bs : List Backend) → length (coordinates_of bs) ≡ length bs
length-coordinates_of [] = refl
length-coordinates_of (b ∷ bs) = ap suc (length-coordinates_of bs)

-- For one backend or more the loops end, whatever the order in which Go visits `unset`: the result
-- is a table of `m` entries, each the index of a backend of the list.
pub reverse_coordinates_lookup_table-IsTable :
    (order : List ℕ → List ℕ) (backends : List Backend) (m : ℕ)
    → 0 < length backends
    → length backends < 2 ^ 32
    → (out : List ℕ) × (reverse_coordinates_lookup_table order backends m ≡ some out)
      × IsTable (length backends) m out
unfolding reverse_coordinates_lookup_table
reverse_coordinates_lookup_table-IsTable order backends m h g =
    let n : ℕ = length backends in
    let (f, e, t) =
      rounds-keeps (λ f. IsTable n m f.out) n (place-IsTable n m) (m + 1) m m
        (coordinates_of backends) (start_fill n m) (omega arith) (length-coordinates_of backends)
        (length-replicate m 0, All-replicate (λ i. i < n) m 0 h) in
    (
      fill_remaining n 0 (order (unset_keys 0 f.unset)) f.out,
      rw (e, reverse_coordinates_lookup_table),
      fill_remaining-IsTable n m 0 (order (unset_keys 0 f.unset)) f.out h g t,
    )
