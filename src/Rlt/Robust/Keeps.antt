-- ===== src/Rlt/Robust/Keeps.antt =====
-- What the loops of both robust tables keep.
use native.Mathlib.Nat.{mod-lt}
use udplb.Base.{
  ℕ, zero, suc, ◌+◌, ◌%◌, ◌^◌, ◌<◌, ◌≤◌, ◌≡◌, refl, ◌∙◌, Bool, true, false, some, List, [], ◌∷◌,
  arith, get_or, get_or-set_ne, length, length-set, All, Bool-cases, inl, inr, if◌then◌else◌, ltb,
}
use udplb.Types.{Backend}
use udplb.Rlt.Robust.{
  Slots, take_slot, take_next, first_coordinate, fill_first, ban, all_banned, fib_run, fib_round,
  fib_rounds,
}
use udplb.Rlt.Robust.Cells.{sum}
use udplb.Rlt.Robust.Search.{Sound, take_slot-Sound, take_next-Sound}

get_or-All : (m : ℕ) (xs : List ℕ) (j : ℕ) → 0 < m → All (λ x. x < m) xs → get_or xs j 0 < m
get_or-All m [] j h a = h
get_or-All m (x ∷ xs) zero h a = a.0
get_or-All m (x ∷ xs) (suc j) h a = get_or-All m xs j h a.1

module _ (n m : ℕ) (small : m < 2 ^ 32) (some_cell : 0 < m) where
  -- A slot is taken for backend `j`, and its share falls by one.
  abbrev pub Took : ℕ → Slots → Type 0
  Took j s =
      (s' : Slots) × (take_next m j s ≡ some s')
      × Sound n m s'
      × (suc (sum s'.distribution) ≡ sum s.distribution)

  pub took :
      (j : ℕ) (s : Slots)
      → j < n
      → ltb (get_or s.distribution j 0) 1 ≡ false
      → Sound n m s
      → Took j s
  took j s jn e h =
      let share : 0 < get_or s.distribution j 0 = ground arith in
      let (slot, found, sm) =
        take_next-Sound n m j s small jn share (get_or-All m s.latest j some_cell h.inside) h in
      let (sound, less) = take_slot-Sound n m j slot s small jn sm share h in
      (take_slot j slot s, found, sound, less)

  pub ban-Sound : (j : ℕ) (s : Slots) → Sound n m s → Sound n m (ban j s)
  ban-Sound j s h = record {
    cells = h.cells;
    entries = h.entries;
    inside = h.inside;
    shares = h.shares;
    bans = length-set s.banned j true ∙ h.bans;
    room = h.room;
  }

  pub fill_first-Sound :
      (share j : ℕ) (bs : List Backend) (s : Slots)
      → 0 < share
      → j + length bs ≤ n
      → ((i : ℕ) → j ≤ i → i < n → get_or s.distribution i 0 ≡ share)
      → Sound n m s
      → Sound n m (fill_first m j bs s)
  unfolding fill_first
  fill_first-Sound share j [] s p l d h = h
  fill_first-Sound share j (b ∷ bs) s p l d h =
      fill_first-Sound share (j + 1) bs (take_slot j (first_coordinate b % m) s) p (omega arith)
        (λ i g k. get_or-set_ne s.distribution j i _ 0 (λ e. omega arith) ∙ d i (omega arith) k)
        ((take_slot-Sound n m j (first_coordinate b % m) s small (omega arith)
          (mod-lt (first_coordinate b) some_cell)
          (omega (arith, d j (omega arith) (omega arith), p)) h).0)

  fib_run-Sound :
      (j r : ℕ) (s : Slots)
      → j < n
      → Sound n m s
      → (s' : Slots) × (fib_run m j r s ≡ some s') × Sound n m s'
  unfolding fib_run
  fib_run-Sound j zero s jn h = (s, refl, h)
  fib_run-Sound j (suc r) s jn h = elim (Bool-cases (ltb (get_or s.distribution j 0) 1)) [
    | inl e ↦ (ban j s, rw (e, if◌then◌else◌) refl, ban-Sound j s h)
    | inr e ↦
        let (s1, t, h1, less) = took j s jn e h in
        let (s2, r2, h2) = fib_run-Sound j r s1 jn h1 in
        (s2, rw (e, fib_run, t, if◌then◌else◌) r2, h2)
  ]

  fib_round-Sound :
      (f j k : ℕ) (s : Slots)
      → j + k ≤ n
      → Sound n m s
      → (b : Bool) × (s' : Slots) × (fib_round m f j k s ≡ some (b, s')) × Sound n m s'
  unfolding fib_round
  fib_round-Sound f j zero s l h = (false, s, refl, h)
  fib_round-Sound f j (suc k) s l h = elim (Bool-cases (all_banned s.banned)) [
    | inl a ↦ (true, s, rw (a, if◌then◌else◌) refl, h)
    | inr a ↦ elim (Bool-cases (ltb (get_or s.distribution j 0) 1)) [
      | inl e ↦
          let (b, s', r, h') = fib_round-Sound f (j + 1) k s (omega arith) h in
          (b, s', rw (a, e, if◌then◌else◌) r, h')
      | inr e ↦
          let (s1, r1, h1) = fib_run-Sound j f s (omega arith) h in
          let (b, s', r, h') = fib_round-Sound f (j + 1) k s1 (omega arith) h1 in
          (b, s', rw (a, e, if◌then◌else◌, fib_round, r1) r, h')
    ]
  ]

  pub fib_rounds-Sound :
      (fs : List ℕ) (s : Slots)
      → Sound n m s
      → (s' : Slots) × (fib_rounds m n fs s ≡ some s') × Sound n m s'
  unfolding fib_rounds
  fib_rounds-Sound [] s h = (s, refl, h)
  fib_rounds-Sound (f ∷ fs) s h =
      let (b, s1, r1, h1) = fib_round-Sound f 0 n s (omega arith) h in
      after b s1 r1 h1 (fib_rounds-Sound fs s1 h1)
    where
      after :
          (b : Bool) (s1 : Slots)
          → fib_round m f 0 n s ≡ some (b, s1)
          → Sound n m s1
          → ((s' : Slots) × (fib_rounds m n fs s1 ≡ some s') × Sound n m s')
          → (s' : Slots) × (fib_rounds m n (f ∷ fs) s ≡ some s') × Sound n m s'
      after true s1 r1 h1 rest = (s1, rw (r1, fib_rounds) refl, h1)
      after false s1 r1 h1 (s2, r2, h2) = (s2, rw (r1, fib_rounds) r2, h2)
