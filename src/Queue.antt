-- ===== src/Queue.antt =====
-- Core/mstd/lockFreeQueue.hpp: a chain of nodes from `head`, which is a dummy, to `tail`. The server
-- itself does not use it. Each function is what one thread does between two atomic accesses, or a
-- sequence of those with no other thread in between; `none` means that it follows a pointer that is
-- null or to a node that has been deleted.
pub mod Chain
pub mod Order
pub mod Interleaved
pub mod Lifetime
mod Tests
use sok.Base.{
  nat_keys, ℕ, zero, suc, Bool, true, false, List, [], ◌∷◌, ◌++◌, Option, none, some, ◌>>=◌,
  if◌then◌else◌, ◌==◌,
}
use sok.Base.Map.{Map, lookup, insert, erase}

-- `Node`; `next` is `none` where it is the null pointer.
pub record Node {ℓ} (A : Type ℓ) : Type ℓ where
  pub element : A
  pub next : Option ℕ

-- The nodes that are allocated, by their addresses; `fresh` is an address that `new` has not given.
pub record Queue {ℓ} (A : Type ℓ) : Type ℓ where
  pub nodes : Map ℕ (Node A)
  pub head : Option ℕ
  pub tail : ℕ
  pub fresh : ℕ

module _ {ℓ} {A : Type ℓ} where
  -- The constructor: `blank` is what `T()` gives.
  unfoldable pub create : A → Queue A
  create blank = record {
    nodes = (0, record { element = blank; next = none }) ∷ [];
    head = some 0;
    tail = 0;
    fresh = 1;
  }

  -- `enqueue` up to the exchange of the tail: the old tail and the new node.
  unfoldable pub begin_enqueue : A → Queue A → ℕ × ℕ × Queue A
  begin_enqueue value s = (
    s.tail,
    s.fresh,
    record s {
      nodes = insert s.fresh (record { element = value; next = none }) s.nodes;
      tail = s.fresh;
      fresh = suc s.fresh;
    },
  )

  -- The assignment behind it.
  unfoldable pub end_enqueue : ℕ → ℕ → Queue A → Option (Queue A)
  end_enqueue old_tail new_node s = lookup old_tail s.nodes >>= λ node.
      some (record s { nodes = insert old_tail (record node { next = some new_node }) s.nodes })

  unfoldable pub enqueue : A → Queue A → Option (Queue A)
  unfolding begin_enqueue end_enqueue
  enqueue value s =
      let (old_tail, new_node, t) = begin_enqueue value s in end_enqueue old_tail new_node t

  -- The loop of `dequeue` where no other thread comes in between: if the queue is not empty, `head`
  -- moves on to what follows it. The result is `old_head`.
  unfoldable pub begin_dequeue : Queue A → Option (ℕ × Queue A)
  begin_dequeue s = s.head >>= λ old_head.
      if old_head == s.tail
      then some (old_head, s)
      else (lookup old_head s.nodes >>= λ node. some (old_head, record s { head = node.next }))

  -- Behind the loop: the test, the element, the store to `head`, and `delete`.
  unfoldable pub end_dequeue : ℕ → Queue A → Option (Option A × Queue A)
  end_dequeue old_head s =
      if old_head == s.tail
      then some (none, s)
      else (lookup old_head s.nodes >>= λ node. node.next >>= λ new_head.
          lookup new_head s.nodes >>= λ first.
          some
            (some first.element, record s { head = some new_head; nodes = erase old_head s.nodes }))

  unfoldable pub dequeue : Queue A → Option (Option A × Queue A)
  unfolding begin_dequeue end_dequeue
  dequeue s = begin_dequeue s >>= λ r. end_dequeue r.0 r.1

  -- `empty`; the two pointers are the same.
  unfoldable pub empty : Queue A → Bool
  empty s = elim s.head [ none ↦ false | some head ↦ head == s.tail ]

  -- The loop of the destructor, for at most so many turns.
  unfoldable pub destroy : ℕ → Queue A → Option (Queue A)
  destroy zero s = none
  destroy (suc n) s = elim s.head [
    | none ↦ some s
    | some old_head ↦ lookup old_head s.nodes >>= λ node.
        destroy n (record s { head = node.next; nodes = erase old_head s.nodes })
  ]
