-- ===== src/Base/Ints.antt =====
-- Signed integers over the native numbers: the source's `i32`.
use Prim.Native.Nat.{ℕ}
use mathlib.Core.Path.{◌≡◌, refl}
use mathlib.Core.Bool.{Bool, true, false}
use native.Mathlib.Omega.{arith}
use grpcurl_rs.Base.Bools.{leb, ◌==◌}
use grpcurl_rs.Base.Sorts.{IsTotalOrder}

-- `negsuc n` is -(n + 1).
pub data ℤ : Type 0 where
  pos : ℕ → ℤ
  negsuc : ℕ → ℤ

-- `x < 0`
abbrev pub is_negative : ℤ → Bool
is_negative (pos n) = false
is_negative (negsuc n) = true

-- `<=`
abbrev pub int_le : ℤ → ℤ → Bool
int_le (pos m) (pos n) = leb m n
int_le (pos m) (negsuc n) = false
int_le (negsuc m) (pos n) = true
int_le (negsuc m) (negsuc n) = leb n m

abbrev pub int_eq : ℤ → ℤ → Bool
int_eq (pos m) (pos n) = m == n
int_eq (negsuc m) (negsuc n) = m == n
int_eq _ _ = false

int_le_total : (x y : ℤ) → int_le x y ≡ false → int_le y x ≡ true
int_le_total (pos m) (pos n) h = ground (arith, h)
int_le_total (pos m) (negsuc n) h = refl
int_le_total (negsuc m) (pos n) h = cc
int_le_total (negsuc m) (negsuc n) h = ground (arith, h)

int_le_trans : (x y z : ℤ) → int_le x y ≡ true → int_le y z ≡ true → int_le x z ≡ true
int_le_trans (pos m) (pos n) (pos k) h g = ground (arith, h, g)
int_le_trans (pos m) (pos n) (negsuc k) h g = cc
int_le_trans (pos m) (negsuc n) z h g = cc
int_le_trans (negsuc m) y (pos k) h g = refl
int_le_trans (negsuc m) (pos n) (negsuc k) h g = cc
int_le_trans (negsuc m) (negsuc n) (negsuc k) h g = ground (arith, h, g)

pub int_le_order : IsTotalOrder int_le
int_le_order = record { total = int_le_total; trans = int_le_trans }
