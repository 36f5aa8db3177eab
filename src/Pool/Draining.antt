-- ===== src/Pool/Draining.antt =====
-- The destructor of Core/mstd/threadPool.hpp returns when all work is done.
use sok.Base.{nat_keys, ℕ, suc, ◌≤◌, ◌++◌, inl, inr, ◌≡◌, ap, ◌∙◌, arith, append-nil}
use sok.Base.Counting.{total, total-le}
use sok.Pool.{Worker, Pool, IsReachable, is_live, IsJoined}
use sok.Pool.Counts.{is_task, runs, IsKept, IsReachable-IsKept}

one_live : (q : ℕ) (w : Worker) → runs q w ≤ is_live w
one_live q w = ground arith

joined-done :
    (n : ℕ) (s : Pool)
    → IsKept (suc n) s
    → total is_live s.workers ≡ 0
    → (s.accepted ≡ s.started)
      × ((q : ℕ) → total (is_task q) s.executed ≡ total (is_task q) s.accepted)
joined-done n s v gone = elim v.closed [
  | inl live ↦ absurd (omega (arith, live, gone))
  | inr (_, none_left) ↦
      let order = v.order ∙ ap (λ ts. s.started ++ ts) none_left ∙ append-nil s.started in
      (
        order,
        λ q.
            rw order
              (omega (arith, v.counts q, gone, total-le (runs q) is_live s.workers (one_live q))),
      )
]

-- In a pool with a thread, whatever its threads, its users and the destructor do and in whatever
-- order, once every `join` has returned each task that `enqueue` has accepted has been executed, as
-- often as it was accepted, and the tasks were taken in the order in which they were accepted.
pub IsReachable-IsJoined :
    (n : ℕ) (s : Pool)
    → IsReachable (suc n) s
    → IsJoined s
    → (s.accepted ≡ s.started)
      × ((q : ℕ) → total (is_task q) s.executed ≡ total (is_task q) s.accepted)
IsReachable-IsJoined n s r joined = joined-done n s (IsReachable-IsKept r) joined.1
