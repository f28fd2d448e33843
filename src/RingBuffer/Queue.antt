-- ===== src/RingBuffer/Queue.antt =====
-- What the ring buffer promises: a queue that forgets its oldest item when it is full.
use udplb.Base.{ℕ, List, [], ◌∷◌, ◌++◌, nat_beq, if◌then◌else◌, length}

module _ {ℓ} {A : Type ℓ} where
  abbrev pub tail : List A → List A
  tail [] = []
  tail (x ∷ q) = q

  -- A write to a queue of at most `size` items.
  unfoldable pub push : ℕ → List A → A → List A
  push size q v = if nat_beq (length q) size then tail q ++ (v ∷ []) else q ++ (v ∷ [])
