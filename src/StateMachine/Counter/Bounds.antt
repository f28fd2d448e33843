-- ===== src/StateMachine/Counter/Bounds.antt =====
-- internal/adapter/statemachine/counter.go: `add` and `subtract` on signed values.
use udplb.Base.{
  ℕ, ◌+◌, ◌^◌, ◌<◌, ◌≤◌, ◌≡◌, ◌≢◌, inl, inr, true, false, not, ◌&&◌, ◌||◌, Option, none, some, refl,
  arith, ltb, ltb→lt, ltb→ge, ge→ltb, lt→ltb, nat_beq, Bool-cases, if◌then◌else◌, ◌∙◌,
}
use udplb.StateMachine.{Error}
use udplb.StateMachine.Counter.{
  Counter, biased, lt64, add64, sub64, add, subtract, add_positive, subtract_positive, above_max,
  below_min, value_or,
}
use udplb.StateMachine.Counter.Signed.{add64_exact, add64_wraps, sub64_exact}

-- The input of `add` and `subtract`: a positive int64.
pub record IsPositive (i : ℕ) : Type 0 where
  pub ne_zero : i ≢ 0
  pub lt : i < 2 ^ 63

nonneg : (i : ℕ) → IsPositive i → lt64 i 0 ≡ false
nonneg i h = let lt = h.lt in ge→ltb (biased i) (biased 0) (omega arith)

nonzero : (i : ℕ) → IsPositive i → nat_beq i 0 ≡ false
nonzero i h = let ne = h.ne_zero in ground arith

add-positive : (i : ℕ) (stm : Counter) → IsPositive i → add i stm ≡ add_positive i stm
unfolding add
add-positive i stm h = rw (nonneg i h, nonzero i h, if◌then◌else◌) refl

subtract-positive :
    (i : ℕ) (stm : Counter) → IsPositive i → subtract i stm ≡ subtract_positive i stm
unfolding subtract
subtract-positive i stm h = rw (nonneg i h, nonzero i h, if◌then◌else◌) refl

-- What a positive `i` may do to a counter without a maximum.
pub data Added (i : ℕ) (stm : Counter) (r : Option Error × Counter) : Type 0 where
  exact :
      (s : ℕ)
      → biased s ≡ biased stm.state + i
      → r ≡ (none, record stm { state = s })
      → Added i stm r
  refused :
      2 ^ 64 ≤ biased stm.state + i
      → stm.allow_overflow ≡ false
      → r ≡ (some Error.no_overflow, stm)
      → Added i stm r
  wrapped :
      (s : ℕ)
      → stm.allow_overflow ≡ true
      → biased s + 2 ^ 64 ≡ biased stm.state + i
      → r ≡ (none, record stm { state = s })
      → Added i stm r

add_positive-Added :
    (i : ℕ) (stm : Counter)
    → IsPositive i
    → stm.state < 2 ^ 64
    → stm.max_val ≡ none
    → Added i stm (add_positive i stm)
add_positive-Added i stm h hs hm = elim (Bool-cases (ltb (biased stm.state + i) (2 ^ 64))) [
  | inl e ↦
      let (sum, over) =
        add64_exact stm.state i hs h.lt (ltb→lt (biased stm.state + i) (2 ^ 64) e) in
      exact (add64 stm.state i) sum (rw (hm, over, above_max, if◌then◌else◌, ◌&&◌) refl)
  | inr e ↦
      let ge = ltb→ge (biased stm.state + i) (2 ^ 64) e in
      let (sum, over) = add64_wraps stm.state i hs h.lt ge in
      elim (Bool-cases stm.allow_overflow) [
        | inl a ↦
            wrapped (add64 stm.state i) a sum
              (rw (hm, over, a, above_max, if◌then◌else◌, ◌&&◌, not) refl)
        | inr a ↦ refused ge a (rw (hm, over, a, above_max, if◌then◌else◌, ◌&&◌, not) refl)
      ]
]

-- On a counter without a maximum, adding a positive int64 gives the exact sum of the signed values if
-- that fits an int64; if not, it is refused with `ErrNoOverflow` and changes nothing, unless overflow
-- is allowed: then the state is the sum minus 2^64.
pub add-Added :
    (i : ℕ) (stm : Counter)
    → IsPositive i
    → stm.state < 2 ^ 64
    → stm.max_val ≡ none
    → Added i stm (add i stm)
add-Added i stm h hs hm = rw (add-positive i stm h) (add_positive-Added i stm h hs hm)

biased_inj : (a b : ℕ) → a < 2 ^ 64 → b < 2 ^ 64 → biased a ≡ biased b → a ≡ b
biased_inj a b ha hb e = omega arith

-- On a counter without bounds whose state and the sum fit an int64, subtracting what was just added
-- succeeds and restores the counter.
subtract-add :
    (i : ℕ) (stm : Counter)
    → IsPositive i
    → stm.state < 2 ^ 64
    → biased stm.state + i < 2 ^ 64
    → stm.max_val ≡ none
    → stm.min_val ≡ none
    → ((add i stm).0 ≡ none) × (subtract i ((add i stm).1) ≡ (none, stm))
subtract-add i stm h hs fits hmax hmin =
    let (sum, over) = add64_exact stm.state i hs h.lt fits in
    let added : add i stm ≡ (none, record stm { state = add64 stm.state i }) =
      add-positive i stm h ∙ rw (hmax, over, above_max, if◌then◌else◌, ◌&&◌) refl in
    let lt = h.lt in
    let (back, under) = sub64_exact (add64 stm.state i) i (omega arith) lt (omega arith) in
    let same : sub64 (add64 stm.state i) i ≡ stm.state = omega arith in
    rw added (
      refl,
      subtract-positive i (record stm { state = add64 stm.state i }) h
          ∙ rw (hmin, under, same, below_min, if◌then◌else◌, ◌&&◌) refl,
    )

-- A maximum does not bound the counter: from a state at or below the maximum, an addition whose sum
-- fits an int64 is stored as it is, also when it is above the maximum; the next addition whose sum
-- fits then sets the state back to the maximum, below what it was, again without an error.
add-passes_max :
    (i j v : ℕ) (stm : Counter)
    → IsPositive i
    → IsPositive j
    → stm.state < 2 ^ 64
    → v < 2 ^ 64
    → stm.max_val ≡ some v
    → biased stm.state ≤ biased v
    → biased v < biased stm.state + i
    → biased stm.state + i + j < 2 ^ 64
    → (s : ℕ) × (biased s ≡ biased stm.state + i)
      × (add i stm ≡ (none, record stm { state = s }))
      × (add j (record stm { state = s }) ≡ (none, record stm { state = v }))
add-passes_max i j v stm hi hj hs hv hm below past fits =
    let s = add64 stm.state i in
    let (sum, over) = add64_exact stm.state i hs hi.lt (omega arith) in
    let (sum', over') = add64_exact s j (omega arith) hj.lt (omega arith) in
    let not_above : lt64 v stm.state ≡ false = ge→ltb (biased v) (biased stm.state) (omega arith) in
    let above : lt64 v s ≡ true = lt→ltb (biased v) (biased s) (omega arith) in
    (
      s,
      sum,
      add-positive i stm hi ∙ rw (hm, over, not_above, above_max, if◌then◌else◌, ◌&&◌, ◌||◌) refl,
      add-positive j (record stm { state = s }) hj
          ∙ rw (hm, over', above, above_max, value_or, if◌then◌else◌, ◌&&◌, ◌||◌) refl,
    )
