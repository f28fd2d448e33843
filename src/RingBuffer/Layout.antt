-- ===== src/RingBuffer/Layout.antt =====
-- How a ring buffer stores a queue.
use udplb.Base.{
  ℕ, suc, ◌+◌, ◌-◌, ◌≤◌, ◌<◌, ◌≡◌, refl, sym, ◌∙◌, ◌≢◌, ◌⊎◌, inl, inr, Option, none, some, List, [],
  ◌∷◌, ◌++◌, arith, ltb, if◌then◌else◌, length, get_elem?, get_or, set, get_or-set_self,
  get_or-set_ne, get_elem?_ge, get_elem?-append_lt, get_elem?-append_length, length-append,
  get_or-replicate, length-replicate,
}
use native.Mathlib.Decide.{dec_lt, ℕ_discrete}
use udplb.RingBuffer.{RingBuffer, inc_idx, new_ring_buffer}

-- The cell that is `k ≤ size` steps round the ring from `r`.
abbrev pub slot : ℕ → ℕ → ℕ → ℕ
slot size r k = if ltb (r + k) size then r + k else r + k - size

slot-ne : (size r j k : ℕ) → r < size → j < k → k < size → slot size r j ≢ slot size r k
slot-ne size r j k hr h hk = ground arith

slot-inc : (size r k : ℕ) → r < size → k < size → slot size (inc_idx size r) k ≡ slot size r (k + 1)
unfolding inc_idx
slot-inc size r k hr hk = ground arith

slot-lt : (size r k : ℕ) → r < size → k ≤ size → slot size r k < size
slot-lt size r k hr hk = ground arith

pub inc_idx-lt : (size r : ℕ) → r < size → inc_idx size r < size
unfolding inc_idx
inc_idx-lt size r h = ground arith

pub inc_idx-slot :
    (size r k : ℕ) → r < size → k < size → inc_idx size (slot size r k) ≡ slot size r (k + 1)
unfolding inc_idx
inc_idx-slot size r k hr hk = ground arith

module _ {ℓ} {A : Type ℓ} where
  -- The cells from `r` on hold `q` and then nothing.
  abbrev pub Cells : List (Option A) → ℕ → ℕ → List A → Type ℓ
  Cells buf size r q = (k : ℕ) → k < size → get_or buf (slot size r k) none ≡ get_elem? q k

  pub record Holds (rb : RingBuffer A) (q : List A) : Type ℓ where
    pub stored : length rb.buf ≡ rb.size
    pub read_in : rb.read_idx < rb.size
    pub fits : length q ≤ rb.size
    pub write_at : rb.write_idx ≡ slot rb.size rb.read_idx (length q)
    pub cells : Cells rb.buf rb.size rb.read_idx q

  -- Writing just past the queue appends to it.
  pub Cells-append :
      (buf : List (Option A)) (size r : ℕ) (q : List A) (v : A)
      → length buf ≡ size
      → r < size
      → length q < size
      → Cells buf size r q
      → Cells (set buf (slot size r (length q)) (some v)) size r (q ++ (v ∷ []))
  Cells-append buf size r q v hb hr hq c k hk = elim (dec_lt k (length q)) [
    | yes p ↦
        get_or-set_ne buf (slot size r (length q)) (slot size r k) (some v) none
          (λ e. slot-ne size r k (length q) hr p hq (sym e))
        ∙ c k hk
        ∙ sym (get_elem?-append_lt q (v ∷ []) k p)
    | no p ↦ elim (ℕ_discrete k (length q)) [
      | yes e ↦ rw e (
          get_or-set_self buf (slot size r (length q)) (some v) none
            (omega (arith, hb, slot-lt size r (length q) hr (omega arith)))
          ∙ sym (get_elem?-append_length q v []))
      | no ne ↦
          get_or-set_ne buf (slot size r (length q)) (slot size r k) (some v) none
            (slot-ne size r (length q) k hr (omega arith) hk)
          ∙ c k hk
          ∙ get_elem?_ge q k p
          ∙ sym (get_elem?_ge (q ++ (v ∷ [])) k (omega (arith, length-append {ℓ} q (v ∷ []))))
    ]
  ]

  -- Seen from the next cell the queue has lost its head, and the old head's cell is the last.
  pub Cells-rotate :
      (buf : List (Option A)) (size r : ℕ) (c : Option A) (x : A) (q : List A) (k : ℕ)
      → length buf ≡ size
      → r < size
      → Cells buf size r (x ∷ q)
      → k < size
      → ((k + 1 < size)
          × (get_or (set buf r c) (slot size (inc_idx size r) k) none ≡ get_elem? q k))
        ⊎ ((k + 1 ≡ size) × (get_or (set buf r c) (slot size (inc_idx size r) k) none ≡ c))
  Cells-rotate buf size r c x q k hb hr h hk = elim (dec_lt (k + 1) size) [
    | yes p ↦ inl (
      p,
      rw (slot-inc size r k hr hk) (
          get_or-set_ne buf r (slot size r (k + 1)) c none (ground arith)
          ∙ h (k + 1) p
          ∙ rw (let e : k + 1 ≡ suc k = omega arith in e) refl),
    )
    | no p ↦ inr (
      omega arith,
      rw (slot-inc size r k hr hk) (
          rw (let e : slot size r (k + 1) ≡ r = ground arith in e)
            (get_or-set_self buf r c none (omega arith))),
    )
  ]

  pub new_ring_buffer-Holds : (size : ℕ) → 0 < size → Holds (new_ring_buffer {A = A} size) []
  unfolding new_ring_buffer
  new_ring_buffer-Holds size h = record {
    stored = length-replicate size none;
    read_in = h;
    fits = omega arith;
    write_at = ground arith;
    cells = λ k hk. get_or-replicate size _ none;
  }
