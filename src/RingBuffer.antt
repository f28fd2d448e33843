-- ===== src/RingBuffer.antt =====
-- The overwriting ring buffer of internal/util/ringbuffer.go (`RingBuffer[T]`).
-- A method that mutates the buffer returns the new one; `none` is a run-time panic (an index out of
-- range, a nil dereference). `buf []*T` is a list of options. The channel `safeNext` carries no
-- values, so it is the number of tokens in it, at most `size`. Each critical section is one step:
-- `Next` receives a token first (`receive`, which blocks on an empty channel) and takes the value
-- under the lock afterwards (`take_value`), so that writes can come between the two.
pub mod Queue
pub mod Layout
pub mod Refine
pub mod Fifo
pub mod History
pub mod Race
mod Tests
use udplb.Base.{
  ℕ, ◌+◌, ◌-◌, ◌≡◌, Bool, true, false, ◌&&◌, Option, none, some, List, ltb, nat_beq, if◌then◌else◌,
  get_elem?, set, replicate,
}

pub record RingBuffer {ℓ} (A : Type ℓ) : Type ℓ where
  pub buf : List (Option A)
  pub size : ℕ
  pub read_idx : ℕ
  pub write_idx : ℕ
  pub safe_next : ℕ

-- `i += 1; if i > size-1 { i = 0 }`. At size 0, where Go's `size-1` is -1, both give 0.
unfoldable pub inc_idx : ℕ → ℕ → ℕ
inc_idx size i = if ltb (size - 1) (i + 1) then 0 else i + 1

abbrev pub is_set {ℓ} : {A : Type ℓ} → Option A → Bool
is_set none = false
is_set (some v) = true

-- `select { case safeNext <- struct{}{}: default: }`.
unfoldable pub add_token : ℕ → ℕ → ℕ
add_token size n = if ltb n size then n + 1 else n

module _ {ℓ} {A : Type ℓ} where
  unfoldable pub new_ring_buffer : ℕ → RingBuffer A
  new_ring_buffer size = record {
    buf = replicate size none;
    size = size;
    read_idx = 0;
    write_idx = 0;
    safe_next = 0;
  }

  -- The body of `Write` at the cell that `writeIdx` points to.
  write_cell : A → Option A → RingBuffer A → RingBuffer A
  write_cell v cell rb = record rb {
    buf = set rb.buf rb.write_idx (some v);
    read_idx =
        if nat_beq rb.write_idx rb.read_idx && is_set cell
        then inc_idx rb.size rb.read_idx
        else rb.read_idx;
    write_idx = inc_idx rb.size rb.write_idx;
    safe_next = add_token rb.size rb.safe_next;
  }

  unfoldable pub write : A → RingBuffer A → Option (RingBuffer A)
  unfolding write_cell
  write v rb = elim (get_elem? rb.buf rb.write_idx) [
    | none ↦ none
    | some cell ↦ some (write_cell v cell rb)
  ]

  -- `<-rb.safeNext`: `none` means that the reader waits.
  unfoldable pub receive : RingBuffer A → Option (RingBuffer A)
  receive rb =
      if nat_beq rb.safe_next 0 then none else some (record rb { safe_next = rb.safe_next - 1 })

  -- The critical section of `Next`. A nil cell makes `return *out` panic.
  take_cell : Option (Option A) → RingBuffer A → Option (A × RingBuffer A)
  take_cell none rb = none
  take_cell (some none) rb = none
  take_cell (some (some v)) rb =
      some
        (v, record rb { buf = set rb.buf rb.read_idx none; read_idx = inc_idx rb.size rb.read_idx })

  unfoldable pub take_value : RingBuffer A → Option (A × RingBuffer A)
  unfolding take_cell
  take_value rb = take_cell (get_elem? rb.buf rb.read_idx) rb

  -- `Next` with no other goroutine between its two parts: `none` if it waits or panics.
  unfoldable pub next : RingBuffer A → Option (A × RingBuffer A)
  unfolding receive take_value
  next rb = elim (receive rb) [ none ↦ none | some rb' ↦ take_value rb' ]
