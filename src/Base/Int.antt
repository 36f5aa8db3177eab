-- ===== src/Base/Int.antt =====
-- Signed integers (`int`, `time_t`, file descriptors) over the native numbers.
use sok.Base.Tests.{ltb, nat_same, Keys}
use Prim.Native.Nat.{ℕ, suc, ◌+◌}
use mathlib.Core.Bool.{Bool, true, false}
use mathlib.Core.Logic.{◌↔◌}
use mathlib.Core.Path.{◌≡◌}
use native.Mathlib.Omega.{arith}

-- `negsuc n` is -(n + 1).
pub data ℤ : Type 0 where
  pos : ℕ → ℤ
  negsuc : ℕ → ℤ

abbrev pub pos_part : ℤ → ℕ
pos_part (pos n) = n
pos_part (negsuc n) = 0

abbrev pub neg_part : ℤ → ℕ
neg_part (pos n) = 0
neg_part (negsuc n) = suc n

abbrev pub ltb_ℤ : ℤ → ℤ → Bool
ltb_ℤ a b = ltb (pos_part a + neg_part b) (pos_part b + neg_part a)

abbrev pub int_same : ℤ → ℤ → Bool
int_same (pos a) (pos b) = nat_same a b
int_same (negsuc a) (negsuc b) = nat_same a b
int_same (pos a) (negsuc b) = false
int_same (negsuc a) (pos b) = false

pub int_same_iff : (a b : ℤ) → (int_same a b ≡ true) ↔ (a ≡ b)
int_same_iff a b = ground arith

instance abbrev pub int_keys : Keys ℤ
int_keys = record { same = int_same; same_iff = int_same_iff }
