-- ===== src/StateMachine/Counter/Copies.antt =====
-- internal/adapter/statemachine/counter.go: `DeepCopy`.
use udplb.Base.{ℕ, ◌+◌, ◌^◌, ◌<◌, ◌≤◌, ◌≡◌, ap, arith, true, none, some}
use udplb.StateMachine.{Error}
use udplb.StateMachine.Counter.{Counter, biased, add, deep_copy}
use udplb.StateMachine.Counter.Bounds.{IsPositive, Added, exact, refused, wrapped, add-Added}

wraps :
    (i : ℕ) (stm : Counter)
    → stm.allow_overflow ≡ true
    → Added i stm (add i stm)
    → (add i stm).0 ≡ none
wraps i stm ha (exact s e q) = ap (λ r. r.0) q
wraps i stm ha (refused ge a q) = ground arith
wraps i stm ha (wrapped s a e q) = ap (λ r. r.0) q

refuses :
    (i : ℕ) (stm : Counter)
    → 2 ^ 64 ≤ biased stm.state + i
    → Added i (deep_copy stm) (add i (deep_copy stm))
    → add i (deep_copy stm) ≡ (some Error.no_overflow, deep_copy stm)
unfolding deep_copy
refuses i stm over (exact s e q) = absurd (omega arith)
refuses i stm over (refused ge a q) = q
refuses i stm over (wrapped s a e q) = ground arith

-- The copy of a counter that allows overflow refuses each overflowing addition that the original
-- accepts: on the copy it is an error and changes nothing, on the original there is no error.
deep_copy-refuses :
    (i : ℕ) (stm : Counter)
    → IsPositive i
    → stm.state < 2 ^ 64
    → stm.max_val ≡ none
    → stm.allow_overflow ≡ true
    → 2 ^ 64 ≤ biased stm.state + i
    → ((add i stm).0 ≡ none) × (add i (deep_copy stm) ≡ (some Error.no_overflow, deep_copy stm))
unfolding deep_copy
deep_copy-refuses i stm h hs hm ha over = (
  wraps i stm ha (add-Added i stm h hs hm),
  refuses i stm over (add-Added i (deep_copy stm) h hs hm),
)
