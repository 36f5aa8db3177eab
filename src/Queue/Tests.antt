-- ===== src/Queue/Tests.antt =====
-- Core/mstd/lockFreeQueue.hpp with two elements.
use sok.Base.{nat_keys, true, ◌>>=◌, ℕ, List, [], ◌∷◌, none, some, ◌≡◌, refl, arith}
use sok.Queue.{
  Queue, create, enqueue, begin_enqueue, end_enqueue, begin_dequeue, end_dequeue, dequeue, empty,
  destroy,
}
use sok.Queue.Lifetime.{after_calls, after_calls-destroy}
use sok.Base.Map.{lookup}
use sok.Queue.Chain.{Holds}
use sok.Queue.Order.{Call, enqueues, dequeues, run_calls, answers_of, run_calls-answers_of}
use sok.Queue.Interleaved.{dequeue-overlapped}

abbrev calls : List (Call ℕ)
calls = enqueues 5 ∷ dequeues ∷ dequeues ∷ enqueues 6 ∷ dequeues ∷ []

run_calls-answers_of_example : run_calls calls (create {A = ℕ} 0) ≡ some (answers_of calls [])
run_calls-answers_of_example = run_calls-answers_of 0 calls

-- The queue after `enqueue` of 5 and 6.
abbrev two_elements : Queue ℕ
two_elements = record {
  nodes =
      (0, record { element = 0; next = some 1 })
      ∷ (1, record { element = 5; next = some 2 })
      ∷ (2, record { element = 6; next = none })
      ∷ [];
  head = some 0;
  tail = 2;
  fresh = 3;
}

two_elements-Holds : Holds (5 ∷ 6 ∷ []) two_elements
two_elements-Holds = record {
  first = 0;
  blank = 0;
  starts = refl;
  chain = (1, refl, omega arith, (2, refl, omega arith, (refl, refl)));
  bounded = omega arith;
}

dequeue-overlapped_example :
    (old_head : ℕ) × (t : Queue ℕ) × (u : Queue ℕ) × (begin_dequeue two_elements
      ≡ some (old_head, t))
    × (dequeue t ≡ some (some 6, u))
    × (end_dequeue old_head u ≡ none)
dequeue-overlapped_example = dequeue-overlapped 5 6 [] two_elements two_elements-Holds

after_calls-destroy_example :
    (s : Queue ℕ) × (t : Queue ℕ) × (after_calls calls (create 0) ≡ some s)
    × (empty s ≡ true)
    × (destroy 2 s ≡ some t)
    × ((q : ℕ) → lookup q t.nodes ≡ none)
after_calls-destroy_example = after_calls-destroy 0 calls

-- What is left after two elements are put in and one is taken out.
abbrev one_left : List (Call ℕ)
one_left = enqueues 5 ∷ enqueues 6 ∷ dequeues ∷ []

one_turn_short : (after_calls one_left (create 0) >>= destroy 2) ≡ none
unfolding create enqueue begin_enqueue end_enqueue dequeue begin_dequeue end_dequeue destroy
one_turn_short = refl

enough_turns :
    (after_calls one_left (create 0) >>= destroy 3)
    ≡ some (record { nodes = []; head = none; tail = 2; fresh = 3 })
unfolding create enqueue begin_enqueue end_enqueue dequeue begin_dequeue end_dequeue destroy
enough_turns = refl
