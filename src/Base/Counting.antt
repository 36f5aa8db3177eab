-- ===== src/Base/Counting.antt =====
-- Sums of weights over a list, to count what a state has of something.
use Prim.Native.Nat.{ℕ, zero, suc, ◌+◌, ◌≤◌}
use mathlib.Core.Bool.{Bool, true, false}
use mathlib.Core.List.{List, [], ◌∷◌, ◌++◌, map}
use mathlib.Core.Option.{some}
use mathlib.Core.Path.{◌≡◌, refl, ap}
use native.Mathlib.Omega.{arith}
use sok.Base.Lists.{set, get_elem?, replicate}

-- 1 if the test holds.
abbrev pub one_if : Bool → ℕ
one_if true = 1
one_if false = 0

module _ {ℓ} {A : Type ℓ} where
  abbrev pub total : (A → ℕ) → List A → ℕ
  total w [] = 0
  total w (t ∷ ts) = w t + total w ts

  -- What moves takes its weight along.
  pub total-set :
      (w : A → ℕ) (ts : List A) (i : ℕ) (old new : A)
      → get_elem? ts i ≡ some old
      → total w (set ts i new) + w old ≡ total w ts + w new
  total-set w [] i old new e = absurd (ground arith)
  total-set w (t ∷ ts) zero old new e = ground arith
  total-set w (t ∷ ts) (suc i) old new e = ground (arith, total-set w ts i old new e)

  pub total-append : (w : A → ℕ) (ts us : List A) → total w (ts ++ us) ≡ total w ts + total w us
  total-append w [] us = omega arith
  total-append w (t ∷ ts) us = omega (arith, total-append w ts us)

  pub total-replicate : (w : A → ℕ) (a : A) (n : ℕ) → w a ≡ 0 → total w (replicate n a) ≡ 0
  total-replicate w a zero e = refl
  total-replicate w a (suc n) e = ground (arith, total-replicate w a n e)

  pub total-map :
      (w : A → ℕ) (f : A → A) (ts : List A)
      → ((a : A) → w (f a) ≡ w a)
      → total w (map f ts) ≡ total w ts
  total-map w f [] e = refl
  total-map w f (t ∷ ts) e = omega (arith, e t, total-map w f ts e)

  pub total-le : (v w : A → ℕ) (ts : List A) → ((a : A) → v a ≤ w a) → total v ts ≤ total w ts
  total-le v w [] e = omega arith
  total-le v w (t ∷ ts) e = omega (arith, e t, total-le v w ts e)

  pub total-ge :
      (w : A → ℕ) (ts : List A) (i : ℕ) (t : A) → get_elem? ts i ≡ some t → w t ≤ total w ts
  total-ge w [] i t e = absurd (ground arith)
  total-ge w (x ∷ ts) zero t e = ground arith
  total-ge w (x ∷ ts) (suc i) t e = omega (arith, total-ge w ts i t e)

  -- Of weights that add up to 1 at most, one is 1.
  pub total_unique :
      (w : A → ℕ) (ts : List A) (i j : ℕ) (t u : A)
      → get_elem? ts i ≡ some t
      → get_elem? ts j ≡ some u
      → w t ≡ 1
      → w u ≡ 1
      → total w ts ≤ 1
      → i ≡ j
  total_unique w [] i j t u a b c d h = absurd (ground arith)
  total_unique w (x ∷ ts) zero zero t u a b c d h = refl
  total_unique w (x ∷ ts) zero (suc j) t u a b c d h = absurd (ground (arith, total-ge w ts j u b))
  total_unique w (x ∷ ts) (suc i) zero t u a b c d h = absurd (ground (arith, total-ge w ts i t a))
  total_unique w (x ∷ ts) (suc i) (suc j) t u a b c d h =
      ap suc (total_unique w ts i j t u a b c d (omega arith))
