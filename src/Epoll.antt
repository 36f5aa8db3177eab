-- ===== src/Epoll.antt =====
-- `epoll_worker` of Core/mstd/EpollManager.hpp: the event loop and the tasks that the threads of
-- its pool run, a critical section at a time. What a handler does to its connection is the subject
-- of Http and Https; here it only says whether the connection is kept.
pub mod Threads
pub mod Exclusion
pub mod Reuse
mod Tests
use sok.Base.{
  is_some, nat_keys, ℕ, Bool, true, false, List, [], ◌∷◌, ◌++◌, Option, none, some, if◌then◌else◌,
  ◌≡◌, set, get_elem?, replicate,
}
use sok.Base.Int.{ℤ}
use sok.Base.Map.{Map, lookup, insert, erase}

-- `std::set<int>`
abbrev pub FdSet : Type 0
FdSet = Map ℕ (Unit {0})

-- Where a thread of the pool stands: it waits, its handler runs, or the handler has returned: before
-- `close`, before `client_map_port.erase`, and before `working_fds.erase`.
pub data Thread : Type 0 where
  waiting : Thread
  handling : ℕ → ℤ → Thread
  closing forgetting leaving : ℕ → Thread

-- Where the event loop stands: between two events, behind the test of `working_fds` with what it
-- found, and behind the first look into `client_map_port`.
pub data Stage : Type 0 where
  next_event : Stage
  marked : ℕ → Bool → Stage
  fetching : ℕ → Stage

-- The variables that the loop and the threads share, the queue of the pool, and the descriptors of
-- connections that are open.
pub record Loop : Type 0 where
  pub client_map_port : Map ℕ ℤ
  pub working_fds : FdSet
  pub tasks : List (ℕ × ℤ)
  pub threads : List Thread
  pub stage : Stage
  pub open_fds : FdSet

unfoldable pub start : ℕ → Loop
start thread_count = record {
  client_map_port = [];
  working_fds = [];
  tasks = [];
  threads = replicate thread_count waiting;
  stage = next_event;
  open_fds = [];
}

-- A new connection: `accept`, the entry of its port, and its registration with epoll.
unfoldable pub accept : ℕ → ℤ → Loop → Loop
accept fd port s = record s {
  client_map_port = insert fd port s.client_map_port;
  open_fds = insert fd tt s.open_fds;
}

-- An event of a connection: the descriptor is marked, unless it is already.
unfoldable pub mark : ℕ → Loop → Loop
mark fd s =
    if is_some (lookup fd s.working_fds)
    then record s { stage = marked fd true }
    else record s { working_fds = insert fd tt s.working_fds; stage = marked fd false }

-- The mark goes, and the event is over.
unfoldable pub drop_event : ℕ → Loop → Loop
drop_event fd s = record s { working_fds = erase fd s.working_fds; stage = next_event }

-- The first look for the port.
unfoldable pub check_client : ℕ → Bool → Loop → Loop
unfolding drop_event
check_client fd skip s =
    if is_some (lookup fd s.client_map_port)
    then record s { stage = if skip then next_event else fetching fd }
    else drop_event fd s

-- The second look, and the task for the pool.
unfoldable pub enqueue_task : ℕ → Loop → Loop
unfolding drop_event
enqueue_task fd s = elim (lookup fd s.client_map_port) [
  | none ↦ drop_event fd s
  | some port ↦ record s { tasks = s.tasks ++ (fd, port) ∷ []; stage = next_event }
]

unfoldable pub set_thread : ℕ → Thread → Loop → Loop
set_thread i t s = record s { threads = set s.threads i t }

-- A thread takes the first task, its handler returns, and the steps behind it.
unfoldable pub take_task : ℕ → ℕ → ℤ → List (ℕ × ℤ) → Loop → Loop
unfolding set_thread
take_task i fd port rest s = record (set_thread i (handling fd port) s) { tasks = rest }

unfoldable pub handled : ℕ → ℕ → Bool → Loop → Loop
unfolding set_thread
handled i fd keep_alive s = set_thread i (if keep_alive then leaving fd else closing fd) s

unfoldable pub close_client : ℕ → ℕ → Loop → Loop
unfolding set_thread
close_client i fd s = record (set_thread i (forgetting fd) s) { open_fds = erase fd s.open_fds }

unfoldable pub forget_client : ℕ → ℕ → Loop → Loop
unfolding set_thread
forget_client i fd s = record (set_thread i (leaving fd) s) {
  client_map_port = erase fd s.client_map_port;
}

unfoldable pub leave : ℕ → ℕ → Loop → Loop
unfolding set_thread
leave i fd s = record (set_thread i waiting s) { working_fds = erase fd s.working_fds }

-- What may happen next. `accept` gives a descriptor that is not open; an event may be of any
-- descriptor, since it may have been closed after `epoll_wait` has reported it.
pub data Step (s : Loop) : Loop → Type 0 where
  accepts :
      (fd : ℕ) (port : ℤ)
      → s.stage ≡ next_event
      → lookup fd s.open_fds ≡ none
      → Step s (accept fd port s)
  event : (fd : ℕ) → s.stage ≡ next_event → Step s (mark fd s)
  checks : (fd : ℕ) (skip : Bool) → s.stage ≡ marked fd skip → Step s (check_client fd skip s)
  enqueues : (fd : ℕ) → s.stage ≡ fetching fd → Step s (enqueue_task fd s)
  takes :
      (i fd : ℕ) (port : ℤ) (rest : List (ℕ × ℤ))
      → get_elem? s.threads i ≡ some waiting
      → s.tasks ≡ (fd, port) ∷ rest
      → Step s (take_task i fd port rest s)
  returns :
      (i fd : ℕ) (port : ℤ) (keep_alive : Bool)
      → get_elem? s.threads i ≡ some (handling fd port)
      → Step s (handled i fd keep_alive s)
  closes : (i fd : ℕ) → get_elem? s.threads i ≡ some (closing fd) → Step s (close_client i fd s)
  forgets :
      (i fd : ℕ) → get_elem? s.threads i ≡ some (forgetting fd) → Step s (forget_client i fd s)
  leaves : (i fd : ℕ) → get_elem? s.threads i ≡ some (leaving fd) → Step s (leave i fd s)

pub data Reach (s : Loop) : Loop → Type 0 where
  here : Reach s s
  later : {t u : Loop} → Reach s t → Step t u → Reach s u
