-- ===== src/Queue/Interleaved.antt =====
-- What Core/mstd/lockFreeQueue.hpp does when calls of two threads overlap.
use sok.Base.{nat_keys, ℕ, false, List, [], ◌∷◌, none, some, ◌==◌, ◌≡◌, ◌≢◌, refl, ◌∙◌, arith}
use sok.Base.Map.{erase, lookup-insert_ne, lookup-erase_ne, lookup-erase_self}
use sok.Queue.{Queue, begin_enqueue, begin_dequeue, end_dequeue, dequeue}
use sok.Queue.Chain.{Holds, Chain-le, first-lookup}

module _ {ℓ} {A : Type ℓ} where
  -- A `dequeue` between the two parts of the first `enqueue` follows a null pointer.
  dequeue-begin_enqueue :
      (value : A) (s : Queue A) → Holds [] s → dequeue (begin_enqueue value s).2 ≡ none
  unfolding dequeue begin_dequeue end_dequeue begin_enqueue
  dequeue-begin_enqueue value s v =
      let (same, here) = v.chain in
      let ne : (v.first == s.fresh) ≡ false = ground (arith, v.bounded, same) in
      let apart : s.fresh ≢ v.first = ground (arith, v.bounded, same) in
      let still =
        lookup-insert_ne s.fresh v.first (record { element = value; next = none }) s.nodes apart
        ∙ here in
      rw v.starts (rw ne (rw still (rw ne (rw still refl))))

  -- While a thread has taken its old head and has not deleted it, another may dequeue the next element
  -- and delete the node that holds the first thread's: this one then follows a pointer to a deleted
  -- node. Whatever the queue holds, if it holds two elements or more.
  pub dequeue-overlapped :
      (x y : A) (xs : List A) (s : Queue A)
      → Holds (x ∷ y ∷ xs) s
      → (old_head : ℕ) × (t : Queue A) × (u : Queue A) × (begin_dequeue s ≡ some (old_head, t))
        × (dequeue t ≡ some (some y, u))
        × (end_dequeue old_head u ≡ none)
  unfolding dequeue begin_dequeue end_dequeue
  dequeue-overlapped x y xs s v =
      let (k, here, up, (l, there, up', c)) = v.chain in
      let (o, following) = first-lookup s.nodes l y xs s.tail c in
      let below = Chain-le s.nodes l y xs s.tail c in
      let first_ne : (v.first == s.tail) ≡ false = ground (arith, up, up', below) in
      let second_ne : (k == s.tail) ≡ false = ground (arith, up', below) in
      let apart : k ≢ v.first = ground (arith, up) in
      let left = lookup-erase_ne k v.first s.nodes apart ∙ here in
      (
        v.first,
        record s { head = some k },
        record s { head = some l; nodes = erase k s.nodes },
        rw v.starts (rw first_ne (rw here refl)),
        rw second_ne (rw there (rw second_ne (rw there (rw following refl)))),
        rw first_ne (rw left (rw (lookup-erase_self k s.nodes) refl)),
      )
