-- ===== src/Pool.antt =====
-- Core/mstd/threadPool.hpp: the threads of the pool with the mutex and the condition variable, a
-- critical section at a time. A task is a number; what it throws stays in its future.
pub mod Counts
pub mod Draining
pub mod Sleeping
mod Tests
use sok.Base.{
  nat_keys, ℕ, zero, suc, Bool, true, false, List, [], ◌∷◌, ◌++◌, map, some, if◌then◌else◌, ◌≡◌,
  get_elem?, set, replicate,
}
use sok.Base.Counting.{one_if, total}

-- Where a thread stands: before the lock, or woken and about to take it again; behind the test in
-- `wait` that has failed, with the lock; asleep; in a task; or returned.
pub data Worker : Type 0 where
  checking falling asleep exited : Worker
  running : ℕ → Worker

-- `accepted` has the tasks for which `enqueue` has not thrown, `started` those that a thread has
-- taken, `executed` those that have come to their end; `notices` are the calls of `notify_one` that
-- are due, and `announced` says that the destructor has called `notify_all`.
pub record Pool : Type 0 where
  pub workers : List Worker
  pub tasks : List ℕ
  pub stop : Bool
  pub announced : Bool
  pub notices : ℕ
  pub accepted : List ℕ
  pub started : List ℕ
  pub executed : List ℕ

unfoldable pub create : ℕ → Pool
create num_threads = record {
  workers = replicate num_threads checking;
  tasks = [];
  stop = false;
  announced = false;
  notices = 0;
  accepted = [];
  started = [];
  executed = [];
}

abbrev pub is_falling : Worker → ℕ
is_falling falling = 1
is_falling _ = 0

abbrev pub is_asleep : Worker → ℕ
is_asleep asleep = 1
is_asleep _ = 0

-- Nobody has the mutex between two steps but a thread that is about to sleep.
abbrev pub IsUnlocked : Pool → Type 0
IsUnlocked s = total is_falling s.workers ≡ 0

unfoldable pub move_worker : ℕ → Worker → Pool → Pool
move_worker i w s = record s { workers = set s.workers i w }

-- The critical section of a thread: it returns, takes the first task, or is about to sleep.
unfoldable pub look : ℕ → Pool → Pool
unfolding move_worker
look i s = elim s.tasks [
  | [] ↦ if s.stop then move_worker i exited s else move_worker i falling s
  | task ∷ rest ↦ record (move_worker i (running task) s) {
    tasks = rest;
    started = s.started ++ task ∷ [];
  }
]

-- The task is done.
unfoldable pub finish : ℕ → ℕ → Pool → Pool
unfolding move_worker
finish i task s = record (move_worker i checking s) { executed = s.executed ++ task ∷ [] }

-- `enqueue` up to the end of its critical section; on a stopped pool it throws.
unfoldable pub enqueue : ℕ → Pool → Pool
enqueue task s = if s.stop then s else record s {
  tasks = s.tasks ++ task ∷ [];
  accepted = s.accepted ++ task ∷ [];
  notices = suc s.notices;
}

-- `notify_one`, if a thread sleeps, and if none does.
unfoldable pub notify_one : ℕ → ℕ → Pool → Pool
unfolding move_worker
notify_one i rest s = record (move_worker i checking s) { notices = rest }

unfoldable pub notify_none : ℕ → Pool → Pool
notify_none rest s = record s { notices = rest }

-- The destructor: the flag, and `notify_all`. It does not take the mutex.
unfoldable pub set_stop : Pool → Pool
set_stop s = record s { stop = true }

abbrev pub wake : Worker → Worker
wake asleep = checking
wake checking = checking
wake falling = falling
wake exited = exited
wake (running task) = running task

unfoldable pub notify_all : Pool → Pool
notify_all s = record s { workers = map wake s.workers; announced = true }

-- What may happen next. A thread that sleeps may also wake up for no reason.
pub data Step (s : Pool) : Pool → Type 0 where
  looks : (i : ℕ) → get_elem? s.workers i ≡ some checking → IsUnlocked s → Step s (look i s)
  sleeps : (i : ℕ) → get_elem? s.workers i ≡ some falling → Step s (move_worker i asleep s)
  finishes : (i task : ℕ) → get_elem? s.workers i ≡ some (running task) → Step s (finish i task s)
  enqueues : (task : ℕ) → IsUnlocked s → Step s (enqueue task s)
  notifies :
      (i rest : ℕ)
      → s.notices ≡ suc rest
      → get_elem? s.workers i ≡ some asleep
      → Step s (notify_one i rest s)
  notifies_none :
      (rest : ℕ)
      → s.notices ≡ suc rest
      → total is_asleep s.workers ≡ 0
      → Step s (notify_none rest s)
  stops : s.stop ≡ false → Step s (set_stop s)
  announces : s.stop ≡ true → s.announced ≡ false → Step s (notify_all s)
  wakes : (i : ℕ) → get_elem? s.workers i ≡ some asleep → Step s (move_worker i checking s)

-- The states that a pool of `num_threads` threads can come to.
pub data IsReachable (num_threads : ℕ) : Pool → Type 0 where
  created : IsReachable num_threads (create num_threads)
  after : {s t : Pool} → IsReachable num_threads s → Step s t → IsReachable num_threads t

abbrev pub is_live : Worker → ℕ
is_live exited = 0
is_live _ = 1

-- Every `join` of the destructor has returned.
abbrev pub IsJoined : Pool → Type 0
IsJoined s = (s.announced ≡ true) × (total is_live s.workers ≡ 0)
