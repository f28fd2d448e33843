-- ===== src/RingBuffer/Refine.antt =====
-- `Write` and `Next` against the forgetful queue.
use udplb.Base.{
  ℕ, zero, suc, ◌≤◌, ◌<◌, ◌≡◌, refl, sym, ◌∙◌, ap, ◌≢◌, inl, inr, Option, none, some, List, [], ◌∷◌,
  ◌++◌, arith, length, get_elem?, get_or, set, length-append, length-set, get_elem?_ge,
  get_elem?-append_length, get_elem?-append_lt,
}
use native.Mathlib.Decide.{ℕ_discrete}
use udplb.RingBuffer.{RingBuffer, inc_idx, add_token, write, take_value}
use udplb.RingBuffer.Queue.{push}
use udplb.RingBuffer.Layout.{
  Holds, slot, Cells, inc_idx-lt, inc_idx-slot, Cells-append, Cells-rotate,
}

module _ {ℓ} {A : Type ℓ} where
  -- A read in range finds the cell.
  cell_at :
      (buf : List (Option A)) (i : ℕ) (c : Option A)
      → i < length buf
      → get_or buf i none ≡ c
      → get_elem? buf i ≡ some c
  cell_at [] i c h e = absurd (omega arith)
  cell_at (x ∷ xs) zero c h e = ap some e
  cell_at (x ∷ xs) (suc i) c h e = cell_at xs i c (omega arith) e

  head_cell :
      {rb : RingBuffer A} {q : List A} → Holds rb q → get_or rb.buf rb.read_idx none ≡ get_elem? q 0
  head_cell {rb} h =
      rw (let e : rb.read_idx ≡ slot rb.size rb.read_idx 0 = let r = h.read_in in ground arith in e)
        (h.cells 0 (let r = h.read_in in omega arith))

  -- The ring after `Write`, with the read index that it leaves.
  abbrev written : A → ℕ → RingBuffer A → RingBuffer A
  written v r rb = record rb {
    buf = set rb.buf rb.write_idx (some v);
    read_idx = r;
    write_idx = inc_idx rb.size rb.write_idx;
    safe_next = add_token rb.size rb.safe_next;
  }

  -- A write to a ring that is not full.
  written-append :
      (v : A) {rb : RingBuffer A} {q : List A}
      → Holds rb q
      → length q < rb.size
      → Holds (written v rb.read_idx rb) (q ++ (v ∷ []))
  written-append v {rb} {q} h room = record {
    stored = length-set rb.buf rb.write_idx (some v) ∙ h.stored;
    read_in = h.read_in;
    fits = rw (length-append q (v ∷ [])) (omega arith);
    write_at =
        rw (length-append q (v ∷ []), h.write_at)
          (inc_idx-slot rb.size rb.read_idx (length q) h.read_in room);
    cells =
        rw h.write_at (Cells-append rb.buf rb.size rb.read_idx q v h.stored h.read_in room h.cells);
  }

  -- A write to a full ring replaces the oldest item.
  written-rotate :
      (v : A) {rb : RingBuffer A} (x : A) (q : List A)
      → Holds rb (x ∷ q)
      → suc (length q) ≡ rb.size
      → Holds (written v (inc_idx rb.size rb.read_idx) rb) (q ++ (v ∷ []))
  unfolding inc_idx
  written-rotate v {rb} x q h full = record {
    stored = length-set rb.buf rb.write_idx (some v) ∙ h.stored;
    read_in = inc_idx-lt rb.size rb.read_idx h.read_in;
    fits = rw (length-append q (v ∷ [])) (omega arith);
    write_at =
        rw (length-append q (v ∷ []))
          (let w = h.write_at in let r = h.read_in in ground (arith, at_read));
    cells = λ k hk. rw at_read (after k hk);
  }
    where
      at_read : rb.write_idx ≡ rb.read_idx
      at_read = let w = h.write_at in let r = h.read_in in ground arith

      after :
          (k : ℕ)
          → k < rb.size
          → get_or
              (set rb.buf rb.read_idx (some v))
              (slot rb.size (inc_idx rb.size rb.read_idx) k)
              none
            ≡ get_elem? (q ++ (v ∷ [])) k
      after k hk =
          elim (Cells-rotate rb.buf rb.size rb.read_idx (some v) x q k h.stored h.read_in h.cells
            hk) [
              | inl (p, e) ↦ e ∙ sym (get_elem?-append_lt q (v ∷ []) k (omega arith))
              | inr (p, e) ↦
                  e
                  ∙ rw (let k' : k ≡ length q = omega arith in k')
                      (sym (get_elem?-append_length q v []))
            ]

  -- What a write leaves: the queue with the item pushed, and one token more if there is room.
  pub record Wrote (v : A) (rb : RingBuffer A) (q : List A) : Type ℓ where
    pub after : RingBuffer A
    pub runs : write v rb ≡ some after
    pub holds : Holds after (push rb.size q v)
    pub tokens : after.safe_next ≡ add_token rb.size rb.safe_next
    pub same_size : after.size ≡ rb.size

  write_keeps_read :
      (v : A) (rb : RingBuffer A)
      → rb.write_idx < length rb.buf
      → (rb.write_idx ≡ rb.read_idx → get_or rb.buf rb.write_idx none ≡ none)
      → write v rb ≡ some (written v rb.read_idx rb)
  unfolding write
  write_keeps_read v rb h e =
      rw (cell_at rb.buf rb.write_idx (get_or rb.buf rb.write_idx none) h refl, write)
        (ground arith)

  write_moves_read :
      (v x : A) (rb : RingBuffer A)
      → rb.write_idx < length rb.buf
      → rb.write_idx ≡ rb.read_idx
      → get_or rb.buf rb.write_idx none ≡ some x
      → write v rb ≡ some (written v (inc_idx rb.size rb.read_idx) rb)
  unfolding write
  write_moves_read v x rb h e c =
      rw (cell_at rb.buf rb.write_idx (some x) h c, write) (ground arith)

  write_in : {rb : RingBuffer A} (q : List A) → Holds rb q → rb.write_idx < length rb.buf
  write_in {rb} q h =
      let w = h.write_at in let r = h.read_in in let f = h.fits in let s = h.stored in ground arith

  write_at_read :
      {rb : RingBuffer A} (q : List A)
      → Holds rb q
      → length q ≡ rb.size
      → rb.write_idx ≡ rb.read_idx
  write_at_read {rb} q h full = let w = h.write_at in let r = h.read_in in ground arith

  -- With room, the two indices meet only at the empty queue.
  meet_empty :
      {rb : RingBuffer A} (q : List A)
      → Holds rb q
      → length q ≢ rb.size
      → rb.write_idx ≡ rb.read_idx
      → get_or rb.buf rb.write_idx none ≡ none
  meet_empty {rb} q h room e =
      rw e (head_cell h ∙ get_elem?_ge q 0 (empty h.write_at h.read_in h.fits))
    where
      empty :
          rb.write_idx ≡ slot rb.size rb.read_idx (length q)
          → rb.read_idx < rb.size
          → length q ≤ rb.size
          → ¬ (0 < length q)
      empty w r f = ground arith

  pub push-full :
      (size : ℕ) (v x : A) (q : List A)
      → suc (length q) ≡ size
      → push size (x ∷ q) v ≡ q ++ (v ∷ [])
  unfolding push
  push-full size v x q e = ground arith

  pub push-room : (size : ℕ) (v : A) (q : List A) → length q ≢ size → push size q v ≡ q ++ (v ∷ [])
  unfolding push
  push-room size v q e = ground arith

  write-full :
      (v : A) {rb : RingBuffer A} (q : List A) → Holds rb q → length q ≡ rb.size → Wrote v rb q
  write-full v [] h full = absurd (let r = h.read_in in omega arith)
  write-full v {rb} (x ∷ q) h full = record {
    after = written v (inc_idx rb.size rb.read_idx) rb;
    runs =
        write_moves_read v x rb (write_in (x ∷ q) h) (write_at_read (x ∷ q) h full)
          (rw (write_at_read (x ∷ q) h full) (head_cell h));
    holds = rw (push-full rb.size v x q full) (written-rotate v x q h full);
    tokens = refl;
    same_size = refl;
  }

  -- Every write to a ring that holds a queue returns.
  pub write-Wrote : (v : A) {rb : RingBuffer A} (q : List A) → Holds rb q → Wrote v rb q
  write-Wrote v {rb} q h = elim (ℕ_discrete (length q) rb.size) [
    | yes full ↦ write-full v q h full
    | no room ↦ record {
      after = written v rb.read_idx rb;
      runs = write_keeps_read v rb (write_in q h) (meet_empty q h room);
      holds = rw (push-room rb.size v q room) (written-append v h (let f = h.fits in omega arith));
      tokens = refl;
      same_size = refl;
    }
  ]

  -- The ring after the critical section of `Next`.
  abbrev pub taken : RingBuffer A → RingBuffer A
  taken rb = record rb { buf = set rb.buf rb.read_idx none; read_idx = inc_idx rb.size rb.read_idx }

  pub take_value-nonempty :
      (x : A) {rb : RingBuffer A} (q : List A)
      → Holds rb (x ∷ q)
      → take_value rb ≡ some (x, taken rb)
  unfolding take_value
  take_value-nonempty x {rb} q h = rw (
      cell_at rb.buf rb.read_idx (some x) (let r = h.read_in in let s = h.stored in omega arith)
        (head_cell h))

  pub take_value-empty : {rb : RingBuffer A} → Holds rb [] → take_value rb ≡ none
  unfolding take_value
  take_value-empty {rb} h = rw (
      cell_at rb.buf rb.read_idx none (let r = h.read_in in let s = h.stored in omega arith)
        (head_cell h))

  pub taken-Holds : (x : A) {rb : RingBuffer A} (q : List A) → Holds rb (x ∷ q) → Holds (taken rb) q
  unfolding inc_idx
  taken-Holds x {rb} q h = record {
    stored = length-set rb.buf rb.read_idx none ∙ h.stored;
    read_in = inc_idx-lt rb.size rb.read_idx h.read_in;
    fits = let f = h.fits in omega arith;
    write_at = let w = h.write_at in let r = h.read_in in let f = h.fits in ground arith;
    cells = after;
  }
    where
      after : Cells (set rb.buf rb.read_idx none) rb.size (inc_idx rb.size rb.read_idx) q
      after k hk =
          elim (Cells-rotate rb.buf rb.size rb.read_idx none x q k h.stored h.read_in h.cells hk) [
            | inl (p, e) ↦ e
            | inr (p, e) ↦ e ∙ sym (get_elem?_ge q k (let f = h.fits in omega arith))
          ]
