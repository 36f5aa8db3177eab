-- ===== src/Queue/Order.antt =====
-- Core/mstd/lockFreeQueue.hpp, where calls do not overlap, is a queue.
use sok.Base.{
  nat_keys, ℕ, suc, true, false, List, [], ◌∷◌, ◌++◌, Option, none, some, ◌>>=◌, ◌==◌, ◌≡◌, ◌≢◌,
  refl, sym, ◌∙◌, ap, arith,
}
use sok.Base.Map.{Map, lookup, insert, erase, lookup-insert_self, lookup-insert_ne, lookup-erase_ne}
use sok.Queue.{
  Node, Queue, create, begin_enqueue, end_enqueue, enqueue, begin_dequeue, end_dequeue, dequeue,
}
use sok.Queue.Chain.{Holds, Chain-le, last-lookup, first-lookup, Chain-frame, Chain-append}

module _ {ℓ} {A : Type ℓ} where
  pub create-Holds : (blank : A) → Holds [] (create blank)
  unfolding create
  create-Holds blank = record {
    first = 0;
    blank = blank;
    starts = refl;
    chain = (refl, refl);
    bounded = omega arith;
  }

  pub enqueue-Holds :
      (value : A) (xs : List A) (s : Queue A)
      → Holds xs s
      → (t : Queue A) × (enqueue value s ≡ some t) × Holds (xs ++ value ∷ []) t
  unfolding enqueue begin_enqueue end_enqueue
  enqueue-Holds value xs s v =
      let (e, old) = last-lookup s.nodes v.first v.blank xs s.tail v.chain in
      let added : Map ℕ (Node A) =
        insert s.fresh (record { element = value; next = none }) s.nodes in
      let linked : Node A → Option (Node A) = λ node. some (record node { next = some s.fresh }) in
      let apart : s.fresh ≢ s.tail = ground (arith, v.bounded) in
      let still : lookup s.tail added ≡ some (record { element = e; next = none }) =
        lookup-insert_ne s.fresh s.tail (record { element = value; next = none }) s.nodes apart
        ∙ old in
      (
        record s {
          nodes = insert s.tail (record { element = e; next = some s.fresh }) added;
          tail = s.fresh;
          fresh = suc s.fresh;
        },
        rw still refl,
        record {
          first = v.first;
          blank = v.blank;
          starts = v.starts;
          chain =
              Chain-append s.nodes _ v.first v.blank xs s.tail s.fresh value v.bounded
                (λ e' old'.
                  lookup-insert_self s.tail (record { element = e; next = some s.fresh }) added
                  ∙ ap (λ o. o >>= linked) (sym old ∙ old'))
                (lookup-insert_ne s.tail s.fresh (record { element = e; next = some s.fresh }) added
                    (λ h. apart (sym h))
                  ∙ lookup-insert_self s.fresh (record { element = value; next = none }) s.nodes)
                (λ q h.
                  lookup-insert_ne s.tail q (record { element = e; next = some s.fresh }) added
                    (ground (arith, h))
                  ∙ lookup-insert_ne s.fresh q (record { element = value; next = none }) s.nodes
                      (ground (arith, h, v.bounded)))
                v.chain;
          bounded = omega arith;
        },
      )

  pub dequeue-empty : (s : Queue A) → Holds [] s → dequeue s ≡ some (none, s)
  unfolding dequeue begin_dequeue end_dequeue
  dequeue-empty s v =
      let same : (v.first == s.tail) ≡ true = ground (arith, v.chain.0) in
      rw v.starts (rw same (rw same refl))

  pub dequeue-Holds :
      (x : A) (xs : List A) (s : Queue A) (v : Holds (x ∷ xs) s)
      → (t : Queue A) × (dequeue s ≡ some (some x, t))
        × Holds xs t
        × (t.tail ≡ s.tail)
        × (t.fresh ≡ s.fresh)
        × (t.nodes ≡ erase v.first s.nodes)
  unfolding dequeue begin_dequeue end_dequeue
  dequeue-Holds x xs s v =
      let (k, here, up, c) = v.chain in
      let (o, following) = first-lookup s.nodes k x xs s.tail c in
      let below = Chain-le s.nodes k x xs s.tail c in
      let ne : (v.first == s.tail) ≡ false = ground (arith, up, below) in
      (
        record s { head = some k; nodes = erase v.first s.nodes },
        rw v.starts (rw ne (rw here (rw ne (rw here (rw following refl))))),
        record {
          first = k;
          blank = x;
          starts = refl;
          chain =
              Chain-frame s.nodes (erase v.first s.nodes) k x xs s.tail
                (λ q h. lookup-erase_ne v.first q s.nodes (ground (arith, up, h))) c;
          bounded = v.bounded;
        },
        refl,
        refl,
        refl,
      )

-- The calls, and what `dequeue` answers, in their order.
pub data Call {ℓ} (A : Type ℓ) : Type ℓ where
  enqueues : A → Call A
  dequeues : Call A

module _ {ℓ} {A : Type ℓ} where
  abbrev pub run_calls : List (Call A) → Queue A → Option (List (Option A))
  run_calls [] s = some []
  run_calls (enqueues value ∷ calls) s = enqueue value s >>= λ t. run_calls calls t
  run_calls (dequeues ∷ calls) s =
      dequeue s >>= λ r. run_calls calls r.1 >>= λ answers. some (r.0 ∷ answers)

  -- The same of a list, to whose end elements are added and from whose front they are taken.
  abbrev pub answers_of : List (Call A) → List A → List (Option A)
  answers_of [] xs = []
  answers_of (enqueues value ∷ calls) xs = answers_of calls (xs ++ value ∷ [])
  answers_of (dequeues ∷ calls) [] = none ∷ answers_of calls []
  answers_of (dequeues ∷ calls) (x ∷ xs) = some x ∷ answers_of calls xs

  run_calls-Holds :
      (calls : List (Call A)) (xs : List A) (s : Queue A)
      → Holds xs s
      → run_calls calls s ≡ some (answers_of calls xs)
  run_calls-Holds [] xs s v = refl
  run_calls-Holds (enqueues value ∷ calls) xs s v =
      let (t, eq, w) = enqueue-Holds value xs s v in
      rw eq (run_calls-Holds calls (xs ++ value ∷ []) t w)
  run_calls-Holds (dequeues ∷ calls) [] s v =
      rw (dequeue-empty s v) (rw (run_calls-Holds calls [] s v) refl)
  run_calls-Holds (dequeues ∷ calls) (x ∷ xs) s v =
      let (t, eq, w, _, _, _) = dequeue-Holds x xs s v in
      rw eq (rw (run_calls-Holds calls xs t w) refl)

  -- If no two calls overlap, a new queue answers any sequence of calls as a list does to whose end
  -- elements are added and from whose front they are taken, an empty one with null, and it never
  -- follows a pointer that is null or to a deleted node.
  pub run_calls-answers_of :
      (blank : A) (calls : List (Call A))
      → run_calls calls (create blank) ≡ some (answers_of calls [])
  run_calls-answers_of blank calls = run_calls-Holds calls [] (create blank) (create-Holds blank)
