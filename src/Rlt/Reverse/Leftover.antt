-- ===== src/Rlt/Reverse/Leftover.antt =====
-- The cells that the primes leave: they are dealt in the order in which Go visits the map.
use udplb.Base.{
  ℕ, zero, suc, ◌+◌, ◌%◌, ◌^◌, ◌<◌, ◌≡◌, ◌≢◌, refl, sym, ap, ◌∙◌, some, List, [], ◌∷◌, arith,
  get_or, set, length, length-set, get_or-set_self, get_or-set_ne, get_elem?, All,
}
use mathlib.Core.Path.{subst}
use native.Mathlib.Decide.{dec_lt}
use native.Mathlib.Nat.{mod-eq_of_lt, mod_self, mod-add-mod, mod-lt, zero-mod}
use udplb.Rlt.Reverse.{dealt, fill_remaining}

-- No key is visited twice, as in a `range` over a map.
abbrev pub NotIn : ℕ → List ℕ → Type 0
NotIn j [] = Unit
NotIn j (k ∷ ks) = (k ≢ j) × NotIn j ks

abbrev pub Once : List ℕ → Type 0
Once [] = Unit
Once (k ∷ ks) = NotIn k ks × Once ks

-- A key that the loop does not visit keeps its entry.
fill_remaining-other :
    (n i j : ℕ) (ks out : List ℕ)
    → NotIn j ks
    → get_or (fill_remaining n i ks out) j 0 ≡ get_or out j 0
unfolding fill_remaining
fill_remaining-other n i j [] out h = refl
fill_remaining-other n i j (k ∷ ks) out h =
    fill_remaining-other n ((dealt n i + 1) % 2 ^ 32) j ks (set out k (dealt n i)) h.1
    ∙ get_or-set_ne out k j (dealt n i) 0 h.0

-- The turn of the next key: after the last backend the first one follows.
dealt-lt : (n r : ℕ) → r + 1 < n → n < 2 ^ 32 → dealt n ((r + 1) % 2 ^ 32) ≡ r + 1
dealt-lt n r h g = ground arith

dealt-last : (n r : ℕ) → r + 1 ≡ n → n < 2 ^ 32 → dealt n ((r + 1) % 2 ^ 32) ≡ 0
dealt-last n r h g = ground arith

dealt-suc : (n q : ℕ) → 0 < n → n < 2 ^ 32 → dealt n ((q % n + 1) % 2 ^ 32) ≡ (q + 1) % n
dealt-suc n q h g = elim (dec_lt (q % n + 1) n) [
  | yes p ↦ dealt-lt n (q % n) p g ∙ sym (mod-eq_of_lt p) ∙ mod-add-mod q n 1
  | no p ↦
      let e : q % n + 1 ≡ n = omega (arith, mod-lt q h) in
      dealt-last n (q % n) e g ∙ sym (mod_self n) ∙ sym (ap (λ x. x % n) e) ∙ mod-add-mod q n 1
]

dealt-zero : (n : ℕ) → dealt n 0 ≡ 0 % n
dealt-zero n = ground (arith, zero-mod n)

-- The state `s` of the loop is at turn `q`.
round_robin_from :
    (n s q : ℕ) (ks out : List ℕ) (p k : ℕ)
    → 0 < n
    → n < 2 ^ 32
    → dealt n s ≡ q % n
    → Once ks
    → All (λ k. k < length out) ks
    → get_elem? ks p ≡ some k
    → get_or (fill_remaining n s ks out) k 0 ≡ (q + p) % n
unfolding fill_remaining
round_robin_from n s q [] out p k h g t o b e = cc
round_robin_from n s q (x ∷ ks) out zero k h g t o b e =
    let same : x ≡ k = cc in
    let fresh : NotIn k ks = subst (λ j. NotIn j ks) same o.0 in
    fill_remaining-other n ((dealt n s + 1) % 2 ^ 32) k ks (set out x (dealt n s)) fresh
    ∙ rw same (get_or-set_self out k (dealt n s) 0 (omega (arith, b.0, same)))
    ∙ t
    ∙ ap (λ m. m % n) (omega arith)
round_robin_from n s q (x ∷ ks) out (suc p) k h g t o b e =
    round_robin_from n ((dealt n s + 1) % 2 ^ 32) (q + 1) ks (set out x (dealt n s)) p k h g
      (rw t (dealt-suc n q h g)) o.1 (rw (length-set out x (dealt n s)) b.1) e
    ∙ ap (λ m. m % n) (omega arith)

-- The cells that the primes leave go to the backends in turn: the key that Go visits at place `p` gets
-- backend `p` modulo the number of backends, and a key that is not left keeps its entry.
pub fill_remaining-round_robin :
    (n : ℕ) (ks out : List ℕ)
    → 0 < n
    → n < 2 ^ 32
    → Once ks
    → All (λ k. k < length out) ks
    → ((p k : ℕ) → get_elem? ks p ≡ some k → get_or (fill_remaining n 0 ks out) k 0 ≡ p % n)
      × ((j : ℕ) → NotIn j ks → get_or (fill_remaining n 0 ks out) j 0 ≡ get_or out j 0)
fill_remaining-round_robin n ks out h g o b = (
  λ p k e.
      round_robin_from n 0 0 ks out p k h g (dealt-zero n) o b e ∙ ap (λ m. m % n) (omega arith),
  λ j f. fill_remaining-other n 0 j ks out f,
)

-- Two orders of the same keys make two tables: with two backends or more, whenever two cells or more
-- are left, visiting the first two of them in the other order changes the entry of the first.
fill_remaining-order_dependent :
    (n a b : ℕ) (ks out : List ℕ)
    → 1 < n
    → n < 2 ^ 32
    → Once (a ∷ b ∷ ks)
    → All (λ k. k < length out) (a ∷ b ∷ ks)
    → (get_or (fill_remaining n 0 (a ∷ b ∷ ks) out) a 0 ≡ 0)
      × (get_or (fill_remaining n 0 (b ∷ a ∷ ks) out) a 0 ≡ 1)
fill_remaining-order_dependent n a b ks out h g o l = (
  (fill_remaining-round_robin n (a ∷ b ∷ ks) out (omega arith) g o l).0 0 a refl ∙ zero-mod n,
  (fill_remaining-round_robin n (b ∷ a ∷ ks) out (omega arith) g
          (((λ e. o.0.0 (sym e)), o.1.0), (o.0.1, o.1.1)) (l.1.0, (l.0, l.1.1))).0
        1 a refl
      ∙ mod-eq_of_lt h,
)
