-- ===== src/Pool/Tests.antt =====
-- Core/mstd/threadPool.hpp with few threads.
use sok.Base.{nat_keys, ℕ, true, some, ◌≡◌, refl, get_elem?}
use sok.Base.Counting.{total}
use sok.Pool.{
  asleep, Pool, create, look, finish, enqueue, set_stop, notify_all, looks, finishes, enqueues,
  stops, announces, IsReachable, created, after,
}
use sok.Pool.Counts.{is_task}
use sok.Pool.Draining.{IsReachable-IsJoined}
use sok.Pool.Sleeping.{Follows, IsReachable-asleep}

program : Unit {0}
unfolding create look finish enqueue set_stop notify_all
program = tt

-- One task, taken before the destructor runs and done behind its call.
abbrev closed_pool : Pool
closed_pool = look 0 (finish 0 7 (notify_all (set_stop (look 0 (enqueue 7 (create 1))))))

closed_pool-IsReachable : IsReachable 1 closed_pool
unfolding program
closed_pool-IsReachable =
    let begin : IsReachable 1 (create 1) = created in
    let busy = after (after begin (enqueues 7 refl)) (looks 0 refl refl) in
    let called = after (after busy (stops refl)) (announces refl refl) in
    after (after called (finishes 0 7 refl)) (looks 0 refl refl)

IsReachable-IsJoined_example :
    (closed_pool.accepted ≡ closed_pool.started)
    × ((q : ℕ) → total (is_task q) closed_pool.executed ≡ total (is_task q) closed_pool.accepted)
unfolding program
IsReachable-IsJoined_example =
    IsReachable-IsJoined 0 closed_pool closed_pool-IsReachable (refl, refl)

IsReachable-asleep_example :
    (s : Pool) × IsReachable 2 s
    × (s.announced ≡ true)
    × ((t : Pool) → Follows s t → get_elem? t.workers 0 ≡ some asleep)
IsReachable-asleep_example = IsReachable-asleep 1
