-- ===== src/Base/Int.antt =====
-- The C type int where a function returns 0 or a negative error number.
use Prim.Native.Nat.{ℕ, zero, suc}
use mathlib.Core.Bool.{Bool, true, false}
use gen_blob.Base.Tests.{◌==◌}

-- `negsuc n` is -(n + 1).
pub data ℤ : Type 0 where
  pos : ℕ → ℤ
  negsuc : ℕ → ℤ

abbrev pub neg : ℕ → ℤ
neg zero = pos zero
neg (suc n) = negsuc n

-- `i < 0`
abbrev pub is_neg : ℤ → Bool
is_neg (pos n) = false
is_neg (negsuc n) = true

-- The difference of two characters, as an int.
abbrev pub sub_ℕ : ℕ → ℕ → ℤ
sub_ℕ a zero = pos a
sub_ℕ zero (suc b) = negsuc b
sub_ℕ (suc a) (suc b) = sub_ℕ a b

-- `i == n`
abbrev pub equals_ℕ : ℤ → ℕ → Bool
equals_ℕ (pos m) n = m == n
equals_ℕ (negsuc m) n = false
