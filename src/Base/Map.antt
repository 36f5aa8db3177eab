-- ===== src/Base/Map.antt =====
-- `std::map` and `std::unordered_map` as association lists. The order of the keys is that of their
-- first insertion; nothing in the program reads it.
use mathlib.Core.List.{List, [], ◌∷◌}
use mathlib.Core.Logic.{◌≢◌}
use mathlib.Core.Option.{Option, none, some}
use mathlib.Core.Path.{◌≡◌, refl}
use native.Mathlib.Omega.{arith}
use sok.Base.Tests.{Keys, ◌==◌, if◌then◌else◌, same_refl}

abbrev pub Map {ℓ κ} : Type ℓ → Type κ → Type (ℓ ⊔ κ)
Map K V = List (K × V)

module _ {ℓ κ} {K : Type ℓ} {V : Type κ} ⦃keys : Keys K⦄ where
  -- `m.find(k)`
  abbrev pub lookup : K → Map K V → Option V
  lookup k [] = none
  lookup k (e ∷ rest) = if e.0 == k then some e.1 else lookup k rest

  -- `m[k] = v`, `m.insert_or_assign(k, v)`
  abbrev pub insert : K → V → Map K V → Map K V
  insert k v [] = (k, v) ∷ []
  insert k v (e ∷ rest) =
      let later = e ∷ insert k v rest in if e.0 == k then (k, v) ∷ rest else later

  -- `m.erase(k)`
  abbrev pub erase : K → Map K V → Map K V
  erase k [] = []
  erase k (e ∷ rest) = let kept = erase k rest in if e.0 == k then kept else e ∷ kept

  pub lookup-insert :
      (k q : K) (v : V) (m : Map K V)
      → lookup q (insert k v m) ≡ (if k == q then some v else lookup q m)
  lookup-insert k q v [] = refl
  lookup-insert k q v (e ∷ rest) =
      ground (
        arith,
        lookup-insert k q v rest,
        keys.same_iff e.0 k,
        keys.same_iff e.0 q,
        keys.same_iff k q,
      )

  pub lookup-erase :
      (k q : K) (m : Map K V) → lookup q (erase k m) ≡ (if k == q then none else lookup q m)
  lookup-erase k q [] = ground arith
  lookup-erase k q (e ∷ rest) =
      ground
        (arith, lookup-erase k q rest, keys.same_iff e.0 k, keys.same_iff e.0 q, keys.same_iff k q)

  pub lookup-insert_self : (k : K) (v : V) (m : Map K V) → lookup k (insert k v m) ≡ some v
  lookup-insert_self k v m = ground (arith, lookup-insert k k v m, same_refl k)

  pub lookup-insert_ne :
      (k q : K) (v : V) (m : Map K V) → k ≢ q → lookup q (insert k v m) ≡ lookup q m
  lookup-insert_ne k q v m h = ground (arith, lookup-insert k q v m, keys.same_iff k q)

  pub lookup-erase_self : (k : K) (m : Map K V) → lookup k (erase k m) ≡ none
  lookup-erase_self k m = ground (arith, lookup-erase k k m, same_refl k)

  pub lookup-erase_ne : (k q : K) (m : Map K V) → k ≢ q → lookup q (erase k m) ≡ lookup q m
  lookup-erase_ne k q m h = ground (arith, lookup-erase k q m, keys.same_iff k q)
