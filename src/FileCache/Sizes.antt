-- ===== src/FileCache/Sizes.antt =====
-- Sizes of what Core/mstd/fileCache.hpp holds, and what its eviction loop keeps of a list.
use sok.Base.{
  nat_keys, ℕ, ◌+◌, ◌-◌, ◌≤◌, ◌<◌, [], ◌∷◌, none, some, ◌≡◌, refl, ap, arith, ◌==◌, drop_last,
  Bool-cases, inl, inr,
}
use sok.Base.Map.{Map, lookup, erase}
use sok.Base.Text.{Bytes, bytes_keys, bytes_same_iff}
use sok.FileCache.Spec.{File, total, fit}

-- Keys do not repeat.
abbrev pub Distinct : Map Bytes File → Type 0
Distinct [] = Unit {0}
Distinct (e ∷ es) = (lookup e.0 es ≡ none) × Distinct es

pub erase_absent : (k : Bytes) (es : Map Bytes File) → lookup k es ≡ none → erase k es ≡ es
erase_absent k [] h = refl
erase_absent k (e ∷ es) h = ground (arith, erase_absent k es)

-- What `erase` takes out of the total.
pub total-erase :
    (k : Bytes) (f : File) (es : Map Bytes File)
    → Distinct es
    → lookup k es ≡ some f
    → total (erase k es) + f.file_size ≡ total es
total-erase k f [] d h = cc
total-erase k f (e ∷ es) d h = elim (Bool-cases (e.0 == k)) [
  | inl p ↦ ground (arith, ap (λ q. lookup q es) ((bytes_same_iff e.0 k).0 p), erase_absent k es)
  | inr p ↦ ground (arith, total-erase k f es d.1)
]

-- A list within the budget stays whole.
pub fit_all : (b : ℕ) (es : Map Bytes File) → total es ≤ b → fit b es ≡ es
unfolding fit
fit_all b [] h = refl
fit_all b (e ∷ es) h = ground (arith, fit_all (b - e.1.file_size) es)

-- Beyond the budget, the last file is not kept.
pub fit-drop_last : (b : ℕ) (es : Map Bytes File) → b < total es → fit b (drop_last es) ≡ fit b es
unfolding fit
fit-drop_last b [] h = refl
fit-drop_last b (e ∷ []) h = ground arith
fit-drop_last b (e ∷ g ∷ es) h = ground (arith, fit-drop_last (b - e.1.file_size) (g ∷ es))

pub total-fit-le : (b : ℕ) (es : Map Bytes File) → total (fit b es) ≤ b
unfolding fit
total-fit-le b [] = omega arith
total-fit-le b (e ∷ es) = ground (arith, total-fit-le (b - e.1.file_size) es)
