-- ===== src/Queue/Chain.antt =====
-- The chain of nodes that a queue of Core/mstd/lockFreeQueue.hpp holds.
use sok.Base.{
  nat_keys, ℕ, ◌≤◌, ◌<◌, List, [], ◌∷◌, ◌++◌, Option, none, some, ◌≡◌, refl, sym, ap, ◌∙◌, arith,
}
use sok.Base.Map.{Map, lookup}
use sok.Queue.{Node, Queue}

module _ {ℓ} {A : Type ℓ} where
  -- From the node at `i`, which has the element `d`, the nodes of `xs` follow, up to the one at `j`.
  -- Addresses grow along the chain, so that no node is in it twice.
  abbrev pub Chain : Map ℕ (Node A) → ℕ → A → List A → ℕ → Type ℓ
  Chain m i d [] j = (i ≡ j) × (lookup i m ≡ some (record { element = d; next = none }))
  Chain m i d (x ∷ xs) j =
      (k : ℕ) × (lookup i m ≡ some (record { element = d; next = some k }))
      × (i < k)
      × Chain m k x xs j

  -- The queue holds these elements.
  pub record Holds (xs : List A) (s : Queue A) : Type ℓ where
    pub first : ℕ
    pub blank : A
    pub starts : s.head ≡ some first
    pub chain : Chain s.nodes first blank xs s.tail
    pub bounded : s.tail < s.fresh

  pub Chain-le :
      (m : Map ℕ (Node A)) (i : ℕ) (d : A) (xs : List A) (j : ℕ) → Chain m i d xs j → i ≤ j
  Chain-le m i d [] j c = omega (arith, c.0)
  Chain-le m i d (x ∷ xs) j (k, _, up, c) = omega (arith, up, Chain-le m k x xs j c)

  -- The last node of a chain has no next one.
  pub last-lookup :
      (m : Map ℕ (Node A)) (i : ℕ) (d : A) (xs : List A) (j : ℕ)
      → Chain m i d xs j
      → (e : A) × (lookup j m ≡ some (record { element = e; next = none }))
  last-lookup m i d [] j (same, here) = (d, ap (λ q. lookup q m) (sym same) ∙ here)
  last-lookup m i d (x ∷ xs) j (k, _, up, c) = last-lookup m k x xs j c

  -- Its first one has its element.
  pub first-lookup :
      (m : Map ℕ (Node A)) (i : ℕ) (d : A) (xs : List A) (j : ℕ)
      → Chain m i d xs j
      → (o : Option ℕ) × (lookup i m ≡ some (record { element = d; next = o }))
  first-lookup m i d [] j (same, here) = (none, here)
  first-lookup m i d (x ∷ xs) j (k, here, up, c) = (some k, here)

  -- What is not in the chain may change.
  pub Chain-frame :
      (m m' : Map ℕ (Node A)) (i : ℕ) (d : A) (xs : List A) (j : ℕ)
      → ((q : ℕ) → i ≤ q → lookup q m' ≡ lookup q m)
      → Chain m i d xs j
      → Chain m' i d xs j
  Chain-frame m m' i d [] j f (same, here) = (same, f i (omega arith) ∙ here)
  Chain-frame m m' i d (x ∷ xs) j f (k, here, up, c) = (
    k,
    f i (omega arith) ∙ here,
    up,
    Chain-frame m m' k x xs j (λ q h. f q (omega (arith, up, h))) c,
  )

  -- One more node behind the last.
  pub Chain-append :
      (m m' : Map ℕ (Node A)) (i : ℕ) (d : A) (xs : List A) (j n : ℕ) (value : A)
      → j < n
      → ((e : A)
          → lookup j m ≡ some (record { element = e; next = none })
          → lookup j m' ≡ some (record { element = e; next = some n }))
      → lookup n m' ≡ some (record { element = value; next = none })
      → ((q : ℕ) → q < j → lookup q m' ≡ lookup q m)
      → Chain m i d xs j
      → Chain m' i d (xs ++ value ∷ []) n
  Chain-append m m' i d [] j n value h last new f (same, here) = (
    n,
    ap (λ q. lookup q m') same ∙ last d (ap (λ q. lookup q m) (sym same) ∙ here),
    omega (arith, same, h),
    (refl, new),
  )
  Chain-append m m' i d (x ∷ xs) j n value h last new f (k, here, up, c) =
      let below = Chain-le m k x xs j c in
      (
        k,
        f i (omega (arith, up, below)) ∙ here,
        up,
        Chain-append m m' k x xs j n value h last new f c,
      )
