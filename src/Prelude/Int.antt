-- ===== src/Prelude/Int.antt =====
-- Integers, as far as the program uses them: the replies of the command TTL.
use Prim.Native.Nat.{ℕ}

-- `negsuc n` is -(n + 1).
pub data ℤ : Type 0 where
  pos : ℕ → ℤ
  negsuc : ℕ → ℤ

-- Python's `max(z, 0)`.
abbrev pub max_zero : ℤ → ℕ
max_zero (pos n) = n
max_zero (negsuc _) = 0
