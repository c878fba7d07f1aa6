-- ===== src/Base/Int.antt =====
-- Python's integers, with `negsuc n` for -(n + 1).
use Prim.Native.Nat.{ℕ, zero, suc}

pub data ℤ : Type 0 where
  pos : ℕ → ℤ
  negsuc : ℕ → ℤ

-- -n
abbrev pub neg_ℕ : ℕ → ℤ
neg_ℕ zero = pos zero
neg_ℕ (suc n) = negsuc n

-- What `range(n)` counts: nothing for a negative `n`.
abbrev pub range_count : ℤ → ℕ
range_count (pos n) = n
range_count (negsuc n) = 0
