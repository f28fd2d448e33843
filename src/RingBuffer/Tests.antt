-- ===== src/RingBuffer/Tests.antt =====
-- Runs of the ring buffer, and its theorems at concrete buffers.
use udplb.Base.{ℕ, zero, suc, ◌≡◌, refl, none, some, List, [], ◌∷◌, arith, length}
use udplb.RingBuffer.{RingBuffer, inc_idx, add_token, new_ring_buffer, write, receive, take_value}
use udplb.RingBuffer.Queue.{push}
use udplb.RingBuffer.Layout.{Cells}
use udplb.RingBuffer.Fifo.{IsValid, NextPops, write-push, next-NextPops}
use udplb.RingBuffer.History.{write_all, read_n, read_n-write_all}
use udplb.RingBuffer.Race.{Raced, race_panics}

-- The comment's example: size 3, `Write` 0 to 4 with a read between.
abbrev wrapped : RingBuffer ℕ
wrapped = record {
  buf = some 3 ∷ some 4 ∷ some 2 ∷ [];
  size = 3;
  read_idx = 2;
  write_idx = 2;
  safe_next = 3;
}

write_all_run :
    write_all {A = ℕ} (1 ∷ 2 ∷ 3 ∷ 4 ∷ []) (new_ring_buffer 3)
    ≡ some (record {
      buf = some 4 ∷ some 2 ∷ some 3 ∷ [];
      size = 3;
      read_idx = 1;
      write_idx = 1;
      safe_next = 3;
    })
unfolding write_all write new_ring_buffer inc_idx add_token
write_all_run = refl

wrapped-Cells : Cells wrapped.buf 3 2 (2 ∷ 3 ∷ 4 ∷ [])
wrapped-Cells zero h = refl
wrapped-Cells (suc zero) h = refl
wrapped-Cells (suc (suc zero)) h = refl
wrapped-Cells (suc (suc (suc k))) h = absurd (omega arith)

wrapped-IsValid : IsValid wrapped (2 ∷ 3 ∷ 4 ∷ [])
wrapped-IsValid = record {
  layout = record {
    stored = refl;
    read_in = omega arith;
    fits = omega arith;
    write_at = refl;
    cells = wrapped-Cells;
  };
  tokens = refl;
}

write-push_example :
    (rb : RingBuffer ℕ) × (write 5 wrapped ≡ some rb)
    × IsValid rb (push 3 (2 ∷ 3 ∷ 4 ∷ []) 5)
    × (rb.size ≡ 3)
write-push_example = write-push 5 wrapped (2 ∷ 3 ∷ 4 ∷ []) wrapped-IsValid

next-NextPops_example : NextPops wrapped (2 ∷ 3 ∷ 4 ∷ [])
next-NextPops_example = next-NextPops wrapped (2 ∷ 3 ∷ 4 ∷ []) wrapped-IsValid

read_n-write_all_example :
    (rb rb' : RingBuffer ℕ) × (write_all (1 ∷ 2 ∷ 3 ∷ 4 ∷ []) (new_ring_buffer 3) ≡ some rb)
    × (read_n 3 rb ≡ some (2 ∷ 3 ∷ 4 ∷ [], rb'))
    × (receive rb' ≡ none)
read_n-write_all_example = read_n-write_all 3 (1 ∷ 2 ∷ 3 ∷ 4 ∷ []) (omega arith)

race_panics_example :
    (r : List ℕ) × (raced : Raced 5 wrapped r) × (drained last : RingBuffer ℕ) × (read_n
        (length r)
        raced.after
      ≡ some (r, drained))
    × (receive drained ≡ some last)
    × (take_value last ≡ none)
race_panics_example = race_panics 5 2 wrapped (3 ∷ 4 ∷ []) wrapped-IsValid refl
