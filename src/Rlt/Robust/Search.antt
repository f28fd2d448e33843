-- ===== src/Rlt/Robust/Search.antt =====
-- The search of an empty slot ends if there is one, and keeps the table in order.
use udplb.Base.{
  ℕ, zero, suc, ◌+◌, ◌*◌, ◌%◌, ◌^◌, ◌<◌, ◌≤◌, ◌≡◌, ◌≢◌, refl, sym, ap, ◌∙◌, true, false, Option,
  none, some, List, arith, get_or, get_elem?, length, length-set, All, All-set, Bool-cases, inl,
  inr, if◌then◌else◌, ltb,
}
use udplb.Rlt.Reverse.{dec32}
use udplb.Rlt.Robust.{Slots, is_taken, back_to_start, find_slot, take_slot, take_found, take_next}
use udplb.Rlt.Robust.Cells.{
  sum, free, sum-set, get_or_le_sum, free_le_length, free-set_le, free_cell,
}

back_to_start-lt : (m mj : ℕ) → mj < m → m < 2 ^ 32 → back_to_start m mj ≡ mj
back_to_start-lt m mj h g = ground arith

back_to_start-end : (m : ℕ) → 0 < m → m < 2 ^ 32 → back_to_start m m ≡ 0
back_to_start-end m h g = ground arith

module _ (m k : ℕ) (lup : List (Option ℕ)) (small : m < 2 ^ 32) (inside : k < m)
    (empty : get_elem? lup k ≡ some none) where
  -- A slot is found below `m`.
  abbrev pub Found : ℕ → ℕ → Type 0
  Found fuel mj = (slot : ℕ) × (find_slot fuel m lup mj ≡ some slot) × (slot < m)

  taken_ne : (mj : ℕ) → is_taken (get_elem? lup mj) ≡ true → mj ≢ k
  taken_ne mj t e =
      let p = sym (ap (λ x. is_taken (get_elem? lup x)) e ∙ ap is_taken empty) ∙ t in ground arith

  Found-here :
      (fuel mj : ℕ)
      → back_to_start m mj < m
      → is_taken (get_elem? lup (back_to_start m mj)) ≡ false
      → Found (suc fuel) mj
  unfolding find_slot
  Found-here fuel mj h e = (back_to_start m mj, rw (e, if◌then◌else◌) refl, h)

  Found-next :
      (fuel mj at next : ℕ)
      → back_to_start m mj ≡ at
      → (at + 1) % 2 ^ 32 ≡ next
      → is_taken (get_elem? lup at) ≡ true
      → Found fuel next
      → Found (suc fuel) mj
  unfolding find_slot
  Found-next fuel mj at next b q t (slot, e, h) = (slot, rw (b, t, q, if◌then◌else◌) e, h)

  -- From a slot below the empty one.
  Found-below : (fuel mj : ℕ) → mj ≤ k → k < fuel + mj → Found fuel mj
  Found-below zero mj h g = absurd (omega arith)
  Found-below (suc fuel) mj h g =
      let b = back_to_start-lt m mj (omega arith) small in
      elim (Bool-cases (is_taken (get_elem? lup mj))) [
        | inl t ↦
            Found-next fuel mj mj (mj + 1) b (omega arith) t
              (Found-below fuel (mj + 1) (let ne = taken_ne mj t in ground arith) (omega arith))
        | inr e ↦ Found-here fuel mj (omega (arith, b)) (ap (λ x. is_taken (get_elem? lup x)) b ∙ e)
      ]

  -- From any slot, or from the end.
  Found-any : (fuel mj : ℕ) → mj ≤ m → m + 1 + k < fuel + mj → Found fuel mj
  Found-any zero mj h g = absurd (omega arith)
  Found-any (suc fuel) mj h g = elim (Bool-cases (ltb mj m)) [
    | inl l ↦
        let b = back_to_start-lt m mj (ground arith) small in
        elim (Bool-cases (is_taken (get_elem? lup mj))) [
          | inl t ↦
              Found-next fuel mj mj (mj + 1) b (ground arith) t
                (Found-any fuel (mj + 1) (ground arith) (omega arith))
          | inr e ↦ Found-here fuel mj (ground arith) (ap (λ x. is_taken (get_elem? lup x)) b ∙ e)
        ]
    | inr l ↦
        let b : back_to_start m mj ≡ 0 = ground (arith, back_to_start-end m (omega arith) small) in
        elim (Bool-cases (is_taken (get_elem? lup 0))) [
          | inl t ↦
              Found-next fuel mj 0 1 b refl t
                (Found-below fuel 1 (let ne = taken_ne 0 t in ground arith) (omega arith))
          | inr e ↦
              Found-here fuel mj (omega (arith, b)) (ap (λ x. is_taken (get_elem? lup x)) b ∙ e)
        ]
  ]

-- A cell is empty, or holds the index of a backend.
abbrev pub IsEntry : ℕ → Option ℕ → Type 0
IsEntry n none = Unit
IsEntry n (some j) = j < n

-- What the loops keep: the shares left fit in the empty cells.
pub record Sound (n m : ℕ) (s : Slots) : Type 0 where
  pub cells : length s.lup ≡ m
  pub entries : All (IsEntry n) s.lup
  pub inside : All (λ x. x < m) s.latest
  pub shares : length s.distribution ≡ n
  pub bans : length s.banned ≡ n
  pub room : sum s.distribution ≤ free s.lup

pub take_slot-Sound :
    (n m j slot : ℕ) (s : Slots)
    → m < 2 ^ 32
    → j < n
    → slot < m
    → 0 < get_or s.distribution j 0
    → Sound n m s
    → Sound n m (take_slot j slot s)
      × (suc (sum (take_slot j slot s).distribution) ≡ sum s.distribution)
take_slot-Sound n m j slot s small jn sm some_share h = (
  record {
    cells = length-set s.lup slot (some j) ∙ h.cells;
    entries = All-set (IsEntry n) s.lup slot (some j) h.entries jn;
    inside = All-set (λ x. x < m) s.latest j slot h.inside sm;
    shares = length-set s.distribution j _ ∙ h.shares;
    bans = h.bans;
    room = omega (arith, less, h.room, free-set_le s.lup slot j);
  },
  less,
)
  where
    less : suc (sum (take_slot j slot s).distribution) ≡ sum s.distribution
    less = omega (
      arith,
      sum-set s.distribution j (dec32 (get_or s.distribution j 0)) (omega (arith, h.shares)),
      get_or_le_sum s.distribution j,
      h.room,
      free_le_length s.lup,
      h.cells,
    )

-- A backend that has a share left finds a slot.
pub take_next-Sound :
    (n m j : ℕ) (s : Slots)
    → m < 2 ^ 32
    → j < n
    → 0 < get_or s.distribution j 0
    → get_or s.latest j 0 < m
    → Sound n m s
    → (slot : ℕ) × (take_next m j s ≡ some (take_slot j slot s)) × (slot < m)
unfolding take_next
take_next-Sound n m j s small jn some_share at h =
    let (k, e, b) =
      free_cell s.lup (omega (arith, some_share, get_or_le_sum s.distribution j, h.room)) in
    let (slot, found, sm) =
      Found-any m k s.lup small (omega (arith, b, h.cells)) e (2 * m + 2)
        ((get_or s.latest j 0 + 1) % 2 ^ 32) (omega arith) (omega (arith, b, h.cells)) in
    (slot, rw (found, take_found) refl, sm)
