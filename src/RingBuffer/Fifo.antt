-- ===== src/RingBuffer/Fifo.antt =====
-- `RingBuffer` as its users see it: reads give the items back in order, oldest first.
use udplb.Base.{
  ℕ, ◌+◌, ◌-◌, ◌≤◌, ◌<◌, ◌≡◌, refl, sym, ◌∙◌, none, some, List, [], ◌∷◌, arith, length,
  length-append,
}
use native.Mathlib.Nat.{add-zero}
use udplb.RingBuffer.{RingBuffer, new_ring_buffer, add_token, write, receive, next}
use udplb.RingBuffer.Queue
use udplb.RingBuffer.Queue.{push}
use udplb.RingBuffer.Layout.{Holds, new_ring_buffer-Holds}
use udplb.RingBuffer.Refine.{write-Wrote, taken, take_value-nonempty, taken-Holds}

module _ {ℓ} {A : Type ℓ} where
  -- Between two calls `safeNext` has as many tokens as the buffer has items, and `d` more after a
  -- race.
  pub record Stores (d : ℕ) (rb : RingBuffer A) (q : List A) : Type ℓ where
    pub layout : Holds rb q
    pub tokens : rb.safe_next ≡ length q + d

  abbrev pub IsValid : RingBuffer A → List A → Type ℓ
  IsValid rb q = Stores 0 rb q

  length-push :
      (size : ℕ) (v : A) (q : List A)
      → 0 < size
      → length q ≤ size
      → length (push size q v) + 0 ≡ add_token size (length q)
  unfolding push add_token
  length-push size v q h f = ground (arith, length-append q (v ∷ []), shorter q)
    where
      shorter : (q : List A) → length (Queue.tail q) ≡ length q - 1
      shorter [] = refl
      shorter (x ∷ q) = omega arith

  -- `Write` never blocks or panics, and pushes the item, the oldest one giving way at a full buffer.
  pub write-push :
      (v : A) (rb : RingBuffer A) (q : List A)
      → IsValid rb q
      → (rb' : RingBuffer A) × (write v rb ≡ some rb')
        × IsValid rb' (push rb.size q v)
        × (rb'.size ≡ rb.size)
  write-push v rb q s =
      let w = write-Wrote v q s.layout in
      (
        w.after,
        w.runs,
        record {
          layout = w.holds;
          tokens =
              w.tokens
              ∙ rw (s.tokens, add-zero)
                  (sym (
                    length-push rb.size v q (let r = s.layout.read_in in omega arith)
                      s.layout.fits));
        },
        w.same_size,
      )

  -- The layout does not depend on the tokens.
  abbrev pub with_tokens : ℕ → RingBuffer A → RingBuffer A
  with_tokens t rb = record rb { safe_next = t }

  pub with_tokens-Holds :
      (t : ℕ) {rb : RingBuffer A} {q : List A} → Holds rb q → Holds (with_tokens t rb) q
  with_tokens-Holds t h = record {
    stored = h.stored;
    read_in = h.read_in;
    fits = h.fits;
    write_at = h.write_at;
    cells = h.cells;
  }

  pub receive-some :
      (rb : RingBuffer A) → 0 < rb.safe_next → receive rb ≡ some (with_tokens (rb.safe_next - 1) rb)
  unfolding receive
  receive-some rb h = ground arith

  pub receive-none : (rb : RingBuffer A) → rb.safe_next ≡ 0 → receive rb ≡ none
  unfolding receive
  receive-none rb h = ground arith

  -- One `Next` on a buffer that has an item.
  pub next-Stores :
      (d : ℕ) (x : A) (rb : RingBuffer A) (q : List A)
      → Stores d rb (x ∷ q)
      → (rb' : RingBuffer A) × (next rb ≡ some (x, rb')) × Stores d rb' q
  unfolding next
  next-Stores d x rb q s = (
    taken (with_tokens (rb.safe_next - 1) rb),
    rw (receive-some rb (let t = s.tokens in omega arith), next)
        (take_value-nonempty x q (with_tokens-Holds (rb.safe_next - 1) s.layout)),
    record {
      layout = taken-Holds x q (with_tokens-Holds (rb.safe_next - 1) s.layout);
      tokens = let t = s.tokens in omega arith;
    },
  )

  -- `Next` on a buffer with items returns the oldest; on an empty one it waits, and the mutex is
  -- not even asked for.
  abbrev pub NextPops : RingBuffer A → List A → Type ℓ
  NextPops rb [] = receive rb ≡ none
  NextPops rb (x ∷ q) = (rb' : RingBuffer A) × (next rb ≡ some (x, rb')) × IsValid rb' q

  pub next-NextPops : (rb : RingBuffer A) (q : List A) → IsValid rb q → NextPops rb q
  next-NextPops rb [] s = receive-none rb s.tokens
  next-NextPops rb (x ∷ q) s = next-Stores 0 x rb q s

  pub new_ring_buffer-IsValid : (size : ℕ) → 0 < size → IsValid (new_ring_buffer size) []
  unfolding new_ring_buffer
  new_ring_buffer-IsValid size h = record {
    layout = new_ring_buffer-Holds size h;
    tokens = omega arith;
  }
