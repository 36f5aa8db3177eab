-- ===== src/Vector/Iterate.antt =====
-- Core/mstd/iterator.hpp, and a loop from `begin()` to `end()` over a vector of Core/mstd/vector.hpp.
use sok.Base.{
  nat_keys, ℕ, zero, suc, ◌+◌, ◌<◌, Bool, true, false, not, List, [], ◌∷◌, Option, none, some,
  ◌>>=◌, if◌then◌else◌, ltb, ◌==◌, ◌≡◌, refl, sym, ap, ◌∙◌, arith, length, length-take, drop,
  get_elem?,
}
use sok.Vector.{Vector, empty, push_all, at}
use sok.Vector.Growth.{elements, get_elem?-take, push_all-elements, at-push_all}

-- An iterator of a vector; `m_ptr` is the distance from `data`.
pub record Iterator : Type 0 where
  pub m_ptr : ℕ

unfoldable pub increment : Iterator → Iterator
increment it = record { m_ptr = suc it.m_ptr }

-- `operator!=`
unfoldable pub differs : Iterator → Iterator → Bool
differs a b = not (a.m_ptr == b.m_ptr)

module _ {ℓ} {A : Type ℓ} where
  -- `operator*`
  unfoldable pub dereference : Iterator → Vector A → Option A
  dereference it v = get_elem? v.buffer it.m_ptr

  unfoldable pub begin : Vector A → Iterator
  begin v = record { m_ptr = 0 }

  unfoldable pub end_of : Vector A → Iterator
  end_of v = record { m_ptr = v.size }

  -- The elements that a loop from an iterator to `end()` visits, in at most that many rounds.
  unfoldable pub traverse : ℕ → Iterator → Vector A → Option (List A)
  unfolding increment differs dereference end_of
  traverse zero it v = none
  traverse (suc rounds) it v =
      let rest = traverse rounds (increment it) v in
      if differs it (end_of v)
      then (dereference it v >>= λ x. rest >>= λ xs. some (x ∷ xs))
      else some []

  drop-get_elem? :
      (xs : List A) (i : ℕ)
      → i < length xs
      → (x : A) × (get_elem? xs i ≡ some x) × (drop i xs ≡ x ∷ drop (suc i) xs)
  drop-get_elem? [] i h = absurd (omega (arith, h))
  drop-get_elem? (x ∷ xs) zero h = (x, refl, refl)
  drop-get_elem? (x ∷ xs) (suc i) h = drop-get_elem? xs i (omega (arith, h))

  drop_all : (xs : List A) (i : ℕ) → length xs ≡ i → drop i xs ≡ []
  drop_all [] zero h = refl
  drop_all [] (suc i) h = refl
  drop_all (x ∷ xs) zero h = absurd (omega (arith, h))
  drop_all (x ∷ xs) (suc i) h = drop_all xs i (omega (arith, h))

  traverse-drop :
      (n i : ℕ) (v : Vector A)
      → i + n ≡ v.size
      → length (elements v) ≡ v.size
      → traverse (suc n) (record { m_ptr = i }) v ≡ some (drop i (elements v))
  unfolding traverse
  traverse-drop zero i v h l =
      let done : (i == v.size) ≡ true = ground (arith, h) in
      rw done (ap some (sym (drop_all (elements v) i (omega (arith, h, l)))))
  traverse-drop (suc n) i v h l =
      let more : (i == v.size) ≡ false = ground (arith, h) in
      let inside : ltb i v.size ≡ true = ground (arith, h) in
      let (x, here, front) = drop-get_elem? (elements v) i (omega (arith, h, l)) in
      let kept : (if ltb i v.size then get_elem? v.buffer i else none) ≡ get_elem? v.buffer i =
        rw inside refl in
      let found : get_elem? v.buffer i ≡ some x =
        sym kept ∙ sym (get_elem?-take v.size i v.buffer) ∙ here in
      rw more (rw found (rw (traverse-drop n (suc i) v (omega (arith, h)) l) (ap some (sym front))))

  -- A vector that is built from a list holds the list: `operator[]` answers its elements and throws
  -- from its length on, and a loop from `begin()` to `end()` visits each of them once, in their order,
  -- and ends.
  pub traverse-push_all :
      (blank : A) (xs : List A)
      → ((i : ℕ) → at i (push_all xs (empty blank)) ≡ get_elem? xs i)
        × (let v = push_all xs (empty blank) in traverse (suc v.size) (begin v) v ≡ some xs)
  unfolding begin empty
  traverse-push_all blank xs =
      let v = push_all xs (empty blank) in
      let (valid, all) =
        push_all-elements xs (empty blank) (record { allocated = refl; fits = omega arith }) in
      (
        at-push_all blank xs,
        traverse-drop v.size 0 v (omega arith)
              (omega (arith, length-take v.size v.buffer, valid.allocated, valid.fits))
            ∙ ap some all,
      )
