-- ===== src/Base/Integers.antt =====
-- Go's int, for what a request may hold of it: its sign and its size.
use Prim.Native.Nat.{ℕ}

pub data ℤ : Type 0 where
  pos : ℕ → ℤ
  negsuc : ℕ → ℤ
