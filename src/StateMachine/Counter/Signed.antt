-- ===== src/StateMachine/Counter/Signed.antt =====
-- internal/adapter/statemachine/counter.go: the overflow test on wrapped sums is exact.
use udplb.Base.{ℕ, ◌+◌, ◌^◌, ◌<◌, ◌≤◌, ◌≡◌, true, false, arith, ge→ltb, lt→ltb}
use udplb.StateMachine.Counter.{biased, lt64, add64, sub64}

-- A sum that is in range is exact and not below its first term.
pub add64_exact :
    (a i : ℕ)
    → a < 2 ^ 64
    → i < 2 ^ 63
    → biased a + i < 2 ^ 64
    → (biased (add64 a i) ≡ biased a + i) × (lt64 (add64 a i) a ≡ false)
add64_exact a i h1 h2 h3 =
    let e : biased (add64 a i) ≡ biased a + i = omega arith in
    (e, ge→ltb (biased (add64 a i)) (biased a) (omega arith))

-- A sum past the largest value wraps below its first term.
pub add64_wraps :
    (a i : ℕ)
    → a < 2 ^ 64
    → i < 2 ^ 63
    → 2 ^ 64 ≤ biased a + i
    → (biased (add64 a i) + 2 ^ 64 ≡ biased a + i) × (lt64 (add64 a i) a ≡ true)
add64_wraps a i h1 h2 h3 =
    let e : biased (add64 a i) + 2 ^ 64 ≡ biased a + i = omega arith in
    (e, lt→ltb (biased (add64 a i)) (biased a) (omega arith))

pub sub64_exact :
    (a i : ℕ)
    → a < 2 ^ 64
    → i < 2 ^ 63
    → i ≤ biased a
    → (biased (sub64 a i) + i ≡ biased a) × (lt64 a (sub64 a i) ≡ false)
sub64_exact a i h1 h2 h3 =
    let e : biased (sub64 a i) + i ≡ biased a = omega arith in
    (e, ge→ltb (biased a) (biased (sub64 a i)) (omega arith))

pub sub64_wraps :
    (a i : ℕ)
    → a < 2 ^ 64
    → i < 2 ^ 63
    → biased a < i
    → (biased (sub64 a i) + i ≡ biased a + 2 ^ 64) × (lt64 a (sub64 a i) ≡ true)
sub64_wraps a i h1 h2 h3 =
    let e : biased (sub64 a i) + i ≡ biased a + 2 ^ 64 = omega arith in
    (e, lt→ltb (biased a) (biased (sub64 a i)) (omega arith))
