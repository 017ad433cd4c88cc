-- ===== src/Base/Int.antt =====
-- The integers that page numbers and limits may be: a query parameter can be negative.
use griya_maya.Base.{ℕ}

-- `negsuc n` is -(n + 1).
pub data ℤ : Type 0 where
  pos : ℕ → ℤ
  negsuc : ℕ → ℤ

-- the value of an integer that is at least 1, and `d` in its place below that
abbrev pub positive_or : ℕ → ℤ → ℕ
positive_or d (pos ℕ.zero) = d
positive_or d (pos (ℕ.suc n)) = ℕ.suc n
positive_or d (negsuc n) = d
