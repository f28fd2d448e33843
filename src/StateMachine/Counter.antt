-- ===== src/StateMachine/Counter.antt =====
-- internal/adapter/statemachine/counter.go. An int64 is its 64 bits, a number below 2^64: sums and
-- differences wrap, and the comparisons are those of the signed values. A pointer to a bound is an
-- option.
pub mod Signed
pub mod Bounds
pub mod Copies
use udplb.Base.{
  ℕ, ◌+◌, ◌-◌, ◌%◌, ◌^◌, Bool, true, false, not, ◌&&◌, ◌||◌, Option, none, some, ltb, nat_beq,
  if◌then◌else◌, ◌⊎◌, inl, inr,
}
use udplb.Types.{Command}
use udplb.StateMachine.{Error}

-- The signed value plus 2^63, which orders the values.
abbrev pub biased : ℕ → ℕ
biased a = (a + 2 ^ 63) % 2 ^ 64

-- `a < b`, `a + b` and `a - b` of int64.
abbrev pub lt64 : ℕ → ℕ → Bool
lt64 a b = ltb (biased a) (biased b)

abbrev pub add64 : ℕ → ℕ → ℕ
add64 a b = (a + b) % 2 ^ 64

abbrev pub sub64 : ℕ → ℕ → ℕ
sub64 a b = (a + 2 ^ 64 - b) % 2 ^ 64

pub record Counter : Type 0 where
  pub allow_overflow : Bool
  pub max_val : Option ℕ
  pub min_val : Option ℕ
  pub state : ℕ

abbrev pub new_counter : Counter
new_counter = record { allow_overflow = false; max_val = none; min_val = none; state = 0 }

-- The options, on a counter.
abbrev pub counter_with_allow_overflow : Counter → Error ⊎ Counter
counter_with_allow_overflow stm = inr (record stm { allow_overflow = true })

abbrev pub counter_with_maximum_value : ℕ → Counter → Error ⊎ Counter
counter_with_maximum_value v stm = inr (record stm { max_val = some v })

abbrev pub counter_with_minimum_value : ℕ → Counter → Error ⊎ Counter
counter_with_minimum_value v stm = inr (record stm { min_val = some v })

abbrev pub counter_with_initial_state : ℕ → Counter → Error ⊎ Counter
counter_with_initial_state v stm = inr (record stm { state = v })

-- `stm.maxVal != nil && (hasOverflown || stm.state > *stm.maxVal)`.
abbrev pub above_max : Bool → ℕ → Option ℕ → Bool
above_max has_overflown state none = false
above_max has_overflown state (some v) = has_overflown || lt64 v state

abbrev pub below_min : Bool → ℕ → Option ℕ → Bool
below_min has_underflown state none = false
below_min has_underflown state (some v) = has_underflown || lt64 state v

abbrev pub value_or : Option ℕ → ℕ → ℕ
value_or none d = d
value_or (some v) d = v

-- The part of `add` behind the guards on its input.
abbrev pub add_positive : ℕ → Counter → Option Error × Counter
add_positive i stm =
    let new_state = add64 stm.state i in
    let has_overflown = lt64 new_state stm.state in
    if above_max has_overflown stm.state stm.max_val
    then (none, record stm { state = value_or stm.max_val new_state })
    else if has_overflown && not stm.allow_overflow
    then (some Error.no_overflow, stm)
    else (none, record stm { state = new_state })

abbrev pub subtract_positive : ℕ → Counter → Option Error × Counter
subtract_positive i stm =
    let new_state = sub64 stm.state i in
    let has_underflown = lt64 stm.state new_state in
    if below_min has_underflown stm.state stm.min_val
    then (none, record stm { state = value_or stm.min_val new_state })
    else if has_underflown && not stm.allow_overflow
    then (some Error.no_underflow, stm)
    else (none, record stm { state = new_state })

unfoldable pub add : ℕ → Counter → Option Error × Counter
add i stm =
    if lt64 i 0
    then (some Error.input_must_be_a_positive_integer, stm)
    else if nat_beq i 0
    then (none, stm)
    else add_positive i stm

unfoldable pub subtract : ℕ → Counter → Option Error × Counter
subtract i stm =
    if lt64 i 0
    then (some Error.input_must_be_a_positive_integer, stm)
    else if nat_beq i 0
    then (none, stm)
    else subtract_positive i stm

unfoldable pub execute : Command → ℕ → Counter → Option Error × Counter
unfolding add subtract
execute Command.add obj stm = add obj stm
execute Command.subtract obj stm = subtract obj stm
execute _ obj stm = (some Error.unsupported_state_machine_command, stm)

unfoldable pub deep_copy : Counter → Counter
deep_copy stm = record {
  allow_overflow = false;
  max_val = stm.max_val;
  min_val = stm.min_val;
  state = stm.state;
}
