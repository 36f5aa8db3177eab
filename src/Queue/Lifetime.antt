-- ===== src/Queue/Lifetime.antt =====
-- What the nodes of Core/mstd/lockFreeQueue.hpp live through, where calls do not overlap.
use sok.Base.{
  is_some, nat_keys, ℕ, suc, ◌+◌, ◌≤◌, true, List, [], ◌∷◌, ◌++◌, Option, none, some, ◌>>=◌, ◌==◌,
  ◌≡◌, ◌≢◌, refl, sym, ◌∙◌, ap, arith, length, length-append, Option-cases, Bool-cases, inl, inr,
}
use sok.Base.Map.{Map, lookup, insert, erase, lookup-insert, lookup-erase, lookup-erase_ne}
use sok.Base.Text.{is_empty}
use sok.Queue.{Node, Queue, create, begin_enqueue, end_enqueue, enqueue, dequeue, empty, destroy}
use sok.Queue.Chain.{Chain, Holds, first-lookup, Chain-frame}
use sok.Queue.Order.{Call, enqueues, dequeues, enqueue-Holds, dequeue-empty, dequeue-Holds}

module _ {ℓ} {A : Type ℓ} where
  -- What is allocated lies between two addresses.
  abbrev Between : Map ℕ (Node A) → ℕ → ℕ → Type ℓ
  Between m i j = (q : ℕ) (node : Node A) → lookup q m ≡ some node → (i ≤ q) × (q ≤ j)

  -- The queue holds these elements, in nodes whose addresses follow on each other, and no other node
  -- is allocated.
  record Owns (xs : List A) (s : Queue A) : Type ℓ where
    holds : Holds xs s
    dense : s.tail ≡ holds.first + length xs
    only : Between s.nodes holds.first s.tail
    next_fresh : s.fresh ≡ suc s.tail

  Chain-length :
      (m : Map ℕ (Node A)) (i : ℕ) (d : A) (xs : List A) (j : ℕ)
      → Chain m i d xs j
      → i + length xs ≤ j
  Chain-length m i d [] j (same, here) = omega arith
  Chain-length m i d (x ∷ xs) j (k, here, up, c) = omega (arith, up, Chain-length m k x xs j c)

  lookup-erased :
      (m : Map ℕ (Node A)) (i q : ℕ) (node : Node A)
      → lookup q (erase i m) ≡ some node
      → (i ≢ q) × (lookup q m ≡ some node)
  lookup-erased m i q node there = elim (Bool-cases (i == q)) [
    | inl same ↦ absurd (ground (arith, lookup-erase i q m))
    | inr other ↦ ((λ e. ground (arith, nat_keys.same_iff i q)), ground (arith, lookup-erase i q m))
  ]

  destroy-Chain :
      (s : Queue A) (i : ℕ) (d : A) (xs : List A)
      → s.head ≡ some i
      → Chain s.nodes i d xs s.tail
      → s.tail ≡ i + length xs
      → Between s.nodes i s.tail
      → (t : Queue A) × (destroy (suc (suc (length xs))) s ≡ some t)
        × ((q : ℕ) → lookup q t.nodes ≡ none)
  unfolding destroy
  destroy-Chain s i d [] starts (same, here) dense only = (
    record s { head = none; nodes = erase i s.nodes },
    rw (starts, here) refl,
    λ q. elim (Option-cases (lookup q (erase i s.nodes))) [
      | inl gone ↦ gone
      | inr (node, there) ↦
          let (other, before) = lookup-erased s.nodes i q node there in
          let (low, high) = only q node before in absurd (omega (arith, other, low, high, same))
    ],
  )
  destroy-Chain s i d (x ∷ xs) starts (k, here, up, c) dense only =
      let s' = record s { head = some k; nodes = erase i s.nodes } in
      let frame =
        Chain-frame s.nodes (erase i s.nodes) k x xs s.tail
          (λ q h. lookup-erase_ne i q s.nodes (ground (arith, up, h))) c in
      let longer = Chain-length s.nodes k x xs s.tail c in
      let only' : Between (erase i s.nodes) k s.tail = λ q node there.
        let (other, before) = lookup-erased s.nodes i q node there in
        let (low, high) = only q node before in
        (omega (arith, other, low, dense, longer, up), high) in
      let (t, ends, gone) =
        destroy-Chain s' k x xs refl frame (omega (arith, dense, longer, up)) only' in
      (t, rw (starts, here) ends, gone)

  create-Owns : (blank : A) → Owns [] (create blank)
  unfolding create
  create-Owns blank = record {
    holds = record {
      first = 0;
      blank = blank;
      starts = refl;
      chain = (refl, refl);
      bounded = omega arith;
    };
    dense = refl;
    only = λ q node there. ground arith;
    next_fresh = refl;
  }

  enqueue-nodes :
      (value : A) (s t : Queue A)
      → enqueue value s ≡ some t
      → (t.head ≡ s.head)
        × (t.tail ≡ s.fresh)
        × (t.fresh ≡ suc s.fresh)
        × ((q : ℕ)
            → is_some (lookup q t.nodes) ≡ true
            → q ≢ s.fresh
            → q ≢ s.tail
            → is_some (lookup q s.nodes) ≡ true)
  unfolding enqueue begin_enqueue end_enqueue
  enqueue-nodes value s t e =
      let added = insert s.fresh (record { element = value; next = none }) s.nodes in
      elim (Option-cases (lookup s.tail added)) [
        | inl gone ↦ absurd (ground arith)
        | inr (node, found) ↦
            let u : Queue A = record s {
              nodes = insert s.tail (record node { next = some s.fresh }) added;
              tail = s.fresh;
              fresh = suc s.fresh;
            } in
            let stepped : enqueue value s ≡ some u = rw found refl in
            let same : u ≡ t = cc in
            (
              ap (λ (r : Queue A). r.head) (sym same),
              ap (λ (r : Queue A). r.tail) (sym same),
              ap (λ (r : Queue A). r.fresh) (sym same),
              λ q there new old.
                  let there' : is_some (lookup q u.nodes) ≡ true =
                    ap (λ (r : Queue A). is_some (lookup q r.nodes)) same ∙ there in
                  ground (
                    arith,
                    lookup-insert s.tail q (record node { next = some s.fresh }) added,
                    lookup-insert s.fresh q (record { element = value; next = none }) s.nodes,
                    nat_keys.same_iff s.tail q,
                    nat_keys.same_iff s.fresh q,
                  ),
            )
      ]

  enqueue-Owns :
      (value : A) (xs : List A) (s : Queue A)
      → Owns xs s
      → (t : Queue A) × (enqueue value s ≡ some t) × Owns (xs ++ value ∷ []) t
  enqueue-Owns value xs s o =
      let (t, ran, holds) = enqueue-Holds value xs s o.holds in
      let (head, tail, fresh, nodes) = enqueue-nodes value s t ran in
      let first : holds.first ≡ o.holds.first =
        ground (arith, holds.starts, o.holds.starts, head) in
      (
        t,
        ran,
        record {
          holds = holds;
          dense = omega (arith, tail, first, o.dense, o.next_fresh, length-append xs (value ∷ []));
          only = λ q node there. elim (Bool-cases (q == s.fresh)) [
            | inl new ↦
                (let same = (nat_keys.same_iff q s.fresh).0 new in
                  (omega (arith, same, first, o.dense, o.next_fresh), omega (arith, same, tail)))
            | inr not_new ↦ elim (Bool-cases (q == s.tail)) [
              | inl old ↦
                  (let same = (nat_keys.same_iff q s.tail).0 old in
                    (omega (arith, same, first, o.dense), omega (arith, same, tail, o.next_fresh)))
              | inr other ↦ elim (Option-cases (lookup q s.nodes)) [
                | inl gone ↦ absurd (
                    ground (
                      arith,
                      gone,
                      nodes q,
                      nat_keys.same_iff q s.fresh,
                      nat_keys.same_iff q s.tail,
                    ))
                | inr (before, found) ↦
                    (let (low, high) = o.only q before found in
                      (omega (arith, first, low), omega (arith, tail, high, o.next_fresh)))
              ]
            ]
          ];
          next_fresh = omega (arith, fresh, tail);
        },
      )

  dequeue-Owns :
      (x : A) (xs : List A) (s : Queue A)
      → Owns (x ∷ xs) s
      → (t : Queue A) × (dequeue s ≡ some (some x, t)) × Owns xs t
  dequeue-Owns x xs s o =
      let (t, ran, holds, tail, fresh, nodes) = dequeue-Holds x xs s o.holds in
      let longer = Chain-length t.nodes holds.first holds.blank xs t.tail holds.chain in
      let only : Between t.nodes holds.first t.tail = λ q node there.
        let (other, before) =
          lookup-erased s.nodes o.holds.first q node (ap (lookup q) (sym nodes) ∙ there) in
        let (low, high) = o.only q node before in
        (omega (arith, longer, tail, o.dense, low, other), omega (arith, high, tail)) in
      let (next, there) = first-lookup t.nodes holds.first holds.blank xs t.tail holds.chain in
      let (other, before) =
        lookup-erased s.nodes o.holds.first holds.first
          (record { element = holds.blank; next = next })
          (ap (lookup holds.first) (sym nodes) ∙ there) in
      let (low, high) = o.only holds.first _ before in
      (
        t,
        ran,
        record {
          holds = holds;
          dense = omega (arith, longer, tail, o.dense, low, other);
          only = only;
          next_fresh = omega (arith, tail, fresh, o.next_fresh);
        },
      )

  -- The queue after the calls.
  abbrev pub after_calls : List (Call A) → Queue A → Option (Queue A)
  after_calls [] s = some s
  after_calls (enqueues value ∷ calls) s = enqueue value s >>= λ t. after_calls calls t
  after_calls (dequeues ∷ calls) s = dequeue s >>= λ r. after_calls calls r.1

  -- The elements that a list holds after them.
  abbrev pub elements_after : List (Call A) → List A → List A
  elements_after [] xs = xs
  elements_after (enqueues value ∷ calls) xs = elements_after calls (xs ++ value ∷ [])
  elements_after (dequeues ∷ calls) [] = elements_after calls []
  elements_after (dequeues ∷ calls) (x ∷ xs) = elements_after calls xs

  after_calls-Owns :
      (calls : List (Call A)) (xs : List A) (s : Queue A)
      → Owns xs s
      → (t : Queue A) × (after_calls calls s ≡ some t) × Owns (elements_after calls xs) t
  after_calls-Owns [] xs s o = (s, refl, o)
  after_calls-Owns (enqueues value ∷ calls) xs s o =
      let (t, ran, p) = enqueue-Owns value xs s o in
      let (u, rest, r) = after_calls-Owns calls (xs ++ value ∷ []) t p in (u, rw ran rest, r)
  after_calls-Owns (dequeues ∷ calls) [] s o =
      let (u, rest, r) = after_calls-Owns calls [] s o in (u, rw (dequeue-empty s o.holds) rest, r)
  after_calls-Owns (dequeues ∷ calls) (x ∷ xs) s o =
      let (t, ran, p) = dequeue-Owns x xs s o in
      let (u, rest, r) = after_calls-Owns calls xs t p in (u, rw ran rest, r)

  empty-Owns : (xs : List A) (s : Queue A) → Owns xs s → empty s ≡ is_empty xs
  unfolding empty
  empty-Owns [] s o =
      rw o.holds.starts (ground (arith, o.holds.chain.0, nat_keys.same_iff o.holds.first s.tail))
  empty-Owns (x ∷ xs) s o =
      rw o.holds.starts (ground (arith, o.dense, nat_keys.same_iff o.holds.first s.tail))

  -- After any calls that do not overlap on a new queue `empty` tells whether an element is left, and
  -- the destructor follows no pointer to a deleted node, ends after one turn for each element that is
  -- left and two more, and leaves no node allocated.
  pub after_calls-destroy :
      (blank : A) (calls : List (Call A))
      → (s : Queue A) × (t : Queue A) × (after_calls calls (create blank) ≡ some s)
        × (empty s ≡ is_empty (elements_after calls []))
        × (destroy (suc (suc (length (elements_after calls [])))) s ≡ some t)
        × ((q : ℕ) → lookup q t.nodes ≡ none)
  after_calls-destroy blank calls =
      let (s, ran, o) = after_calls-Owns calls [] (create blank) (create-Owns blank) in
      let (t, ends, gone) =
        destroy-Chain s o.holds.first o.holds.blank (elements_after calls []) o.holds.starts
          o.holds.chain o.dense o.only in
      (s, t, ran, empty-Owns (elements_after calls []) s o, ends, gone)
