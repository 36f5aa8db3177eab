-- ===== src/Epoll/Exclusion.antt =====
-- One connection, one thread: what the marks of Core/mstd/EpollManager.hpp achieve.
use sok.Base.{
  is_some, nat_keys, ℕ, ◌+◌, ◌≤◌, true, false, some, ◌≡◌, refl, arith, get_elem?, Option-cases, inl,
  inr,
}
use sok.Base.Counting.{total-set, total-replicate, total-ge, total_unique}
use sok.Base.Map.{lookup, lookup-insert, lookup-erase}
use sok.Epoll.{
  Thread, waiting, handling, closing, forgetting, leaving, marked, Loop, start, accept, mark,
  check_client, enqueue_task, take_task, handled, close_client, forget_client, leave, Step, accepts,
  event, checks, enqueues, takes, returns, closes, forgets, leaves,
}
use sok.Epoll.Threads.{serves, leaves_fd, claims, departing, queued-append}

-- The state of one descriptor: it is claimed or about to be left once at most; while it is claimed
-- it has its port; while it has its port, who holds it has marked it; and the event that the loop
-- works on is the first claim.
pub record Fits (q : ℕ) (s : Loop) : Type 0 where
  pub once : claims q s + departing q s ≤ 1
  pub known : 1 ≤ claims q s → is_some (lookup q s.client_map_port) ≡ true
  pub held :
      1 ≤ claims q s + departing q s
      → is_some (lookup q s.client_map_port) ≡ true
      → is_some (lookup q s.working_fds) ≡ true
  pub first :
      s.stage ≡ marked q false
      → is_some (lookup q s.client_map_port) ≡ true
      → (claims q s + departing q s ≡ 0) × (is_some (lookup q s.working_fds) ≡ true)

-- `accept` gives a descriptor that no task and no thread still works with.
abbrev pub IsFresh : {s t : Loop} → Step s t → Type 0
IsFresh {s} (accepts fd port e h) = claims fd s + departing fd s ≡ 0
IsFresh _ = Unit {0}

Step-Fits : {s t : Loop} (q : ℕ) (step : Step s t) → IsFresh step → Fits q s → Fits q t
unfolding accept mark check_client enqueue_task take_task handled close_client forget_client leave
Step-Fits {s} q (accepts fd port e h) f v =
    ground (arith, lookup-insert fd q port s.client_map_port, nat_keys.same_iff fd q)
Step-Fits {s} q (event fd e) f v =
    ground (arith, lookup-insert fd q tt s.working_fds, nat_keys.same_iff fd q)
Step-Fits {s} q (checks fd skip e) f v =
    ground (arith, lookup-erase fd q s.working_fds, nat_keys.same_iff fd q)
Step-Fits {s} q (enqueues fd e) f v = elim (Option-cases (lookup fd s.client_map_port)) [
  | inl gone ↦ ground (arith, lookup-erase fd q s.working_fds, nat_keys.same_iff fd q)
  | inr (port, found) ↦ ground (arith, queued-append q fd port s.tasks)
]
Step-Fits {s} q (takes i fd port rest e h) f v = ground (
  arith,
  total-set (serves q) s.threads i waiting (handling fd port) e,
  total-set (leaves_fd q) s.threads i waiting (handling fd port) e,
)
Step-Fits {s} q (returns i fd port true e) f v = ground (
  arith,
  total-set (serves q) s.threads i (handling fd port) (leaving fd) e,
  total-set (leaves_fd q) s.threads i (handling fd port) (leaving fd) e,
)
Step-Fits {s} q (returns i fd port false e) f v = ground (
  arith,
  total-set (serves q) s.threads i (handling fd port) (closing fd) e,
  total-set (leaves_fd q) s.threads i (handling fd port) (closing fd) e,
)
Step-Fits {s} q (closes i fd e) f v = ground (
  arith,
  total-set (serves q) s.threads i (closing fd) (forgetting fd) e,
  total-set (leaves_fd q) s.threads i (closing fd) (forgetting fd) e,
)
Step-Fits {s} q (forgets i fd e) f v = ground (
  arith,
  lookup-erase fd q s.client_map_port,
  total-set (serves q) s.threads i (forgetting fd) (leaving fd) e,
  total-set (leaves_fd q) s.threads i (forgetting fd) (leaving fd) e,
)
Step-Fits {s} q (leaves i fd e) f v = ground (
  arith,
  lookup-erase fd q s.working_fds,
  total-set (serves q) s.threads i (leaving fd) waiting e,
  total-set (leaves_fd q) s.threads i (leaving fd) waiting e,
)

-- The states that the loop and its threads can reach, if `accept` never gives a descriptor too early.
pub data Run (thread_count : ℕ) : Loop → Type 0 where
  begin : Run thread_count (start thread_count)
  goes : {s t : Loop} → Run thread_count s → (step : Step s t) → IsFresh step → Run thread_count t

start-Fits : (n q : ℕ) → Fits q (start n)
unfolding start
start-Fits n q =
    let none_serves = total-replicate (serves q) waiting n refl in
    let none_leaves = total-replicate (leaves_fd q) waiting n refl in ground arith

Run-Fits : {n : ℕ} {s : Loop} (q : ℕ) → Run n s → Fits q s
Run-Fits {n} q begin = start-Fits n q
Run-Fits q (goes r step f) = Step-Fits q step f (Run-Fits q r)

-- If the kernel gives no descriptor again before the thread that closed it has left it, then no two
-- threads ever serve the same connection, and a thread that serves one has the connection's mark and
-- its port in the tables.
pub Run-one_thread :
    {n : ℕ} {s : Loop} (q i j : ℕ) (t u : Thread)
    → Run n s
    → get_elem? s.threads i ≡ some t
    → get_elem? s.threads j ≡ some u
    → serves q t ≡ 1
    → serves q u ≡ 1
    → (i ≡ j)
      × (is_some (lookup q s.working_fds) ≡ true)
      × (is_some (lookup q s.client_map_port) ≡ true)
Run-one_thread {s} q i j t u r here there a b =
    let v = Run-Fits q r in
    let one = total-ge (serves q) s.threads i t here in
    let claimed : 1 ≤ claims q s = omega (arith, one) in
    (
      total_unique (serves q) s.threads i j t u here there a b (omega arith),
      v.held (omega (arith, claimed)) (v.known claimed),
      v.known claimed,
    )
