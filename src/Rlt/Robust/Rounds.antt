-- ===== src/Rlt/Robust/Rounds.antt =====
-- The rounds of `RobustSimpleLookupTable`: each of them lowers a share or bans every backend.
use udplb.Base.{
  ℕ, zero, suc, ◌+◌, ◌^◌, ◌<◌, ◌≡◌, refl, Bool, true, some, List, [], ◌∷◌, arith, get_or, set,
  length, Bool-cases, inl, inr, ◌⊎◌, if◌then◌else◌, ltb,
}
use udplb.Rlt.Robust.{Slots, ban, all_banned, simple_round, simple_rounds}
use udplb.Rlt.Robust.Cells.{sum}
use udplb.Rlt.Robust.Search.{Sound}
use udplb.Rlt.Robust.Keeps.{took, ban-Sound}

banned_at : List Bool → ℕ → Bool
banned_at [] i = true
banned_at (b ∷ bs) zero = b
banned_at (b ∷ bs) (suc i) = banned_at bs i

all_banned_at :
    (bs : List Bool) → ((i : ℕ) → i < length bs → banned_at bs i ≡ true) → all_banned bs ≡ true
unfolding banned_at
all_banned_at [] h = refl
all_banned_at (b ∷ bs) h =
    let e = h 0 (omega arith) in
    let rest = all_banned_at bs (λ i g. h (suc i) (omega arith)) in ground arith

banned_at-set :
    (bs : List Bool) (j i : ℕ)
    → banned_at bs i ≡ true ⊎ (i ≡ j)
    → banned_at (set bs j true) i ≡ true
unfolding banned_at
banned_at-set [] j i h = refl
banned_at-set (b ∷ bs) zero zero h = refl
banned_at-set (b ∷ bs) zero (suc i) (inl h) = h
banned_at-set (b ∷ bs) zero (suc i) (inr e) = absurd (ground arith)
banned_at-set (b ∷ bs) (suc j) zero (inl h) = h
banned_at-set (b ∷ bs) (suc j) zero (inr e) = absurd (ground arith)
banned_at-set (b ∷ bs) (suc j) (suc i) (inl h) = banned_at-set bs j i (inl h)
banned_at-set (b ∷ bs) (suc j) (suc i) (inr e) = banned_at-set bs j i (inr (omega arith))

module _ (n m : ℕ) (small : m < 2 ^ 32) (some_cell : 0 < m) where
  -- Either a share fell since the start of the round, or the backends before `j` are banned.
  Progress : ℕ → ℕ → Slots → Type 0
  Progress total j s =
      (sum s.distribution < total)
      ⊎ ((sum s.distribution ≡ total) × ((i : ℕ) → i < j → banned_at s.banned i ≡ true))

  Ends : ℕ → ℕ → ℕ → Slots → Type 0
  Ends total j k s =
      (s' : Slots) × (simple_round m j k s ≡ some s') × Sound n m s' × Progress total n s'

  simple_round-Ends :
      (total j k : ℕ) (s : Slots) → j + k ≡ n → Progress total j s → Sound n m s → Ends total j k s
  unfolding simple_round Ends Progress
  simple_round-Ends total j zero s l p h = (s, refl, h, until p)
    where
      until : Progress total j s → Progress total n s
      until (inl g) = inl g
      until (inr (e, b)) = inr (e, λ i g. b i (omega arith))
  simple_round-Ends total j (suc k) s l p h =
      elim (Bool-cases (ltb (get_or s.distribution j 0) 1)) [
        | inl e ↦
            let (s', r, h', q) =
              simple_round-Ends total (j + 1) k (ban j s) (omega arith) (with_ban p)
                (ban-Sound n m small some_cell j s h) in
            (s', rw (e, if◌then◌else◌) r, h', q)
        | inr e ↦
            let (s1, t, h1, less) = took n m small some_cell j s (omega arith) e h in
            let (s', r, h', q) =
              simple_round-Ends total (j + 1) k s1 (omega arith) (inl (fewer p s1 less)) h1 in
            (s', rw (e, if◌then◌else◌, simple_round, t) r, h', q)
      ]
    where
      with_ban : Progress total j s → Progress total (j + 1) (ban j s)
      with_ban (inl g) = inl g
      with_ban (inr (e, b)) = inr (e, λ i g. banned_at-set s.banned j i (before i g b))
        where
          before :
              (i : ℕ)
              → i < j + 1
              → ((i : ℕ) → i < j → banned_at s.banned i ≡ true)
              → (banned_at s.banned i ≡ true) ⊎ (i ≡ j)
          before i g b = elim (Bool-cases (ltb i j)) [
            | inl l ↦ inl (b i (ground arith))
            | inr l ↦ inr (ground arith)
          ]

      fewer :
          Progress total j s
          → (s1 : Slots) → suc (sum s1.distribution) ≡ sum s.distribution
          → sum s1.distribution < total
      fewer (inl g) s1 less = omega arith
      fewer (inr (e, b)) s1 less = omega arith

  simple_rounds-banned :
      (fuel : ℕ) (s : Slots)
      → 0 < fuel
      → all_banned s.banned ≡ true
      → simple_rounds fuel m n s ≡ some s
  unfolding simple_rounds
  simple_rounds-banned zero s g e = absurd (omega arith)
  simple_rounds-banned (suc fuel) s g e = rw (e, if◌then◌else◌) refl

  pub simple_rounds-Sound :
      (fuel : ℕ) (s : Slots)
      → sum s.distribution + 1 < fuel
      → Sound n m s
      → (s' : Slots) × (simple_rounds fuel m n s ≡ some s') × Sound n m s'
  unfolding simple_rounds Ends Progress
  simple_rounds-Sound zero s g h = absurd (omega arith)
  simple_rounds-Sound (suc fuel) s g h = elim (Bool-cases (all_banned s.banned)) [
    | inl e ↦ (s, rw (e, if◌then◌else◌) refl, h)
    | inr e ↦
        let (s1, r, h1, p) =
          simple_round-Ends (sum s.distribution) 0 n s (omega arith)
            (inr (refl, λ i g. absurd (omega arith))) h in
        let (s2, r2, h2) : (s' : Slots) × (simple_rounds fuel m n s1 ≡ some s') × Sound n m s' =
          elim p [
            | inl less ↦ simple_rounds-Sound fuel s1 (omega arith) h1
            | inr (same, b) ↦ (
              s1,
              simple_rounds-banned fuel s1 (omega arith)
                  (all_banned_at s1.banned (λ i g. b i (omega (arith, h1.bans)))),
              h1,
            )
          ] in
        (s2, rw (e, if◌then◌else◌, simple_rounds, r) r2, h2)
  ]
