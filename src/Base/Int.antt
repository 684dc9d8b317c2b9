-- ===== src/Base/Int.antt =====
-- Python's integers, as far as the program prints and compares them. `negsuc n` is -(n + 1).
use Prim.Native.Nat.{ℕ, suc}
use mathlib.Core.Bool.{Bool, false}
use mathlib.Core.List.{◌∷◌}
use ldms_test.Base.Tests.{nat_beq}
use ldms_test.Base.Equality.{Text}
use ldms_test.Base.Strings.{decimal}

pub data ℤ : Type 0 where
  pos : ℕ → ℤ
  negsuc : ℕ → ℤ

unfoldable pub int_beq : ℤ → ℤ → Bool
int_beq (pos m) (pos n) = nat_beq m n
int_beq (pos m) (negsuc n) = false
int_beq (negsuc m) (pos n) = false
int_beq (negsuc m) (negsuc n) = nat_beq m n

-- `str(z)`
unfoldable pub int_text : ℤ → Text
int_text (pos n) = decimal n
int_text (negsuc n) = b'-' ∷ decimal (suc n)
