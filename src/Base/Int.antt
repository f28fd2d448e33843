-- ===== src/Base/Int.antt =====
-- Go's `int` as far as its values matter: signed integers over the native numbers.
use Prim.Native.Nat.{ℕ}

pub data ℤ : Type 0 where
  pos negsuc : ℕ → ℤ
