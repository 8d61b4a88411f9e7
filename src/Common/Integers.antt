-- ===== src/Common/Integers.antt =====
-- Signed counters of Go, where no overflow is in reach.
use Prim.Native.Nat.{ℕ, zero, suc, ◌+◌}
use mathlib.Core.Bool.{Bool, true, false}
use hooversion.Common.Tests.{leb}

-- `negsuc n` stands for - (n + 1)
pub data ℤ : Type 0 where
  pos negsuc : ℕ → ℤ

-- m - n
infixl 6 ◌⊖◌
abbrev pub ◌⊖◌ : ℕ → ℕ → ℤ
m ⊖ zero = pos m
zero ⊖ suc n = negsuc n
suc m ⊖ suc n = m ⊖ n

infixl 6 ◌+ℤ◌
abbrev pub ◌+ℤ◌ : ℤ → ℤ → ℤ
pos m +ℤ pos n = pos (m + n)
pos m +ℤ negsuc n = m ⊖ suc n
negsuc m +ℤ pos n = n ⊖ suc m
negsuc m +ℤ negsuc n = negsuc (suc (m + n))

abbrev pub neg : ℤ → ℤ
neg (pos zero) = pos zero
neg (pos (suc n)) = negsuc n
neg (negsuc n) = pos (suc n)

abbrev pub leb_int : ℤ → ℤ → Bool
leb_int (pos m) (pos n) = leb m n
leb_int (pos m) (negsuc n) = false
leb_int (negsuc m) (pos n) = true
leb_int (negsuc m) (negsuc n) = leb n m
