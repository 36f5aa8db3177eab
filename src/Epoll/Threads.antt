-- ===== src/Epoll/Threads.antt =====
-- Who holds a descriptor in the event loop of Core/mstd/EpollManager.hpp.
use sok.Base.{nat_keys, ℕ, ◌+◌, List, [], ◌∷◌, ◌++◌, ◌==◌, ◌≡◌, arith}
use sok.Base.Counting.{one_if, total}
use sok.Base.Int.{ℤ}
use sok.Epoll.{
  Thread, waiting, handling, closing, forgetting, leaving, Stage, next_event, marked, fetching,
  Loop,
}

-- A thread serves the descriptor, up to `client_map_port.erase`.
abbrev pub serves : ℕ → Thread → ℕ
serves q (handling fd port) = one_if (fd == q)
serves q (closing fd) = one_if (fd == q)
serves q (forgetting fd) = one_if (fd == q)
serves q waiting = 0
serves q (leaving fd) = 0

abbrev pub leaves_fd : ℕ → Thread → ℕ
leaves_fd q (leaving fd) = one_if (fd == q)
leaves_fd q waiting = 0
leaves_fd q (handling fd port) = 0
leaves_fd q (closing fd) = 0
leaves_fd q (forgetting fd) = 0

abbrev pub queued : ℕ → List (ℕ × ℤ) → ℕ
queued q [] = 0
queued q (task ∷ tasks) = one_if (task.0 == q) + queued q tasks

abbrev pub fetches : ℕ → Stage → ℕ
fetches q (fetching fd) = one_if (fd == q)
fetches q next_event = 0
fetches q (marked fd skip) = 0

-- The tasks for a descriptor, from the loop's second look to the end of its service.
abbrev pub claims : ℕ → Loop → ℕ
claims q s = fetches q s.stage + queued q s.tasks + total (serves q) s.threads

abbrev pub departing : ℕ → Loop → ℕ
departing q s = total (leaves_fd q) s.threads

pub queued-append :
    (q fd : ℕ) (port : ℤ) (tasks : List (ℕ × ℤ))
    → queued q (tasks ++ (fd, port) ∷ []) ≡ queued q tasks + one_if (fd == q)
queued-append q fd port [] = ground arith
queued-append q fd port (task ∷ tasks) = ground (arith, queued-append q fd port tasks)
