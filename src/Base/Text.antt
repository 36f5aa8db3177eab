-- ===== src/Base/Text.antt =====
-- Byte strings (`std::string`) as lists of numbers, and the searches that the source makes in them.
use Prim.Native.Nat.{ℕ}
use Prim.Native.Char.{code}
use Prim.Native.String.{String}
use mathlib.Core.Bool.{Bool, true, false, ◌&&◌}
use mathlib.Core.List.{List, [], ◌∷◌}
use mathlib.Core.Logic.{◌↔◌, ◌≢◌}
use mathlib.Core.Path.{◌≡◌}
use native.Mathlib.Omega.{arith}
use sok.Base.Tests.{nat_same, Keys}

abbrev pub Bytes : Type 0
Bytes = List ℕ

-- The bytes of an ASCII literal.
abbrev pub codes : String → Bytes
codes String.[] = []
codes (String.◌∷◌ c s) = code c ∷ codes s

abbrev pub bytes_same : Bytes → Bytes → Bool
bytes_same [] [] = true
bytes_same [] (y ∷ ys) = false
bytes_same (x ∷ xs) [] = false
bytes_same (x ∷ xs) (y ∷ ys) = nat_same x y && bytes_same xs ys

pub bytes_same_iff : (a b : Bytes) → (bytes_same a b ≡ true) ↔ (a ≡ b)
bytes_same_iff [] [] = ground arith
bytes_same_iff [] (y ∷ ys) = ground arith
bytes_same_iff (x ∷ xs) [] = ground arith
bytes_same_iff (x ∷ xs) (y ∷ ys) = ground (arith, bytes_same_iff xs ys)

instance abbrev pub bytes_keys : Keys Bytes
bytes_keys = record { same = bytes_same; same_iff = bytes_same_iff }

abbrev pub is_empty {ℓ} : {A : Type ℓ} → List A → Bool
is_empty [] = true
is_empty (x ∷ xs) = false

-- No byte of the string is `b`.
abbrev pub Lacks : ℕ → Bytes → Type 0
Lacks b [] = Unit {0}
Lacks b (c ∷ cs) = (c ≢ b) × Lacks b cs

-- `s.starts_with(p)`, in the form `s.compare(0, p.size(), p) == 0`.
abbrev pub starts_with : Bytes → Bytes → Bool
starts_with [] s = true
starts_with (p ∷ ps) [] = false
starts_with (p ∷ ps) (c ∷ s) = nat_same p c && starts_with ps s
