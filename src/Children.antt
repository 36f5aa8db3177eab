-- ===== src/Children.antt =====
-- The worker processes: Core/utils/ForkManager.hpp, and the handler of SIGCHLD in SOK.cpp. The
-- kernel's table of the children is part of the state. SIGTERM ends a worker, which has no handler
-- for it.
pub mod Reaping
mod Tests
use sok.Base.{
  nat_keys, ℕ, Bool, true, false, ◌||◌, List, [], ◌∷◌, ◌++◌, Option, none, some, if◌then◌else◌,
  ◌==◌, ◌≡◌,
}
use sok.Base.Map.{Map, lookup, insert, erase}

-- A child runs, or it has ended and nobody has waited for it yet.
pub data Life : Type 0 where
  running ended : Life

-- `child_pids`, the kernel's children, and the identifiers that SIGTERM went to, the latest first.
pub record ForkManager : Type 0 where
  pub child_pids : List ℕ
  pub children : Map ℕ Life
  pub signalled : List ℕ

-- In the parent, for what `fork` answers.
unfoldable pub create_child_process : Option ℕ → ForkManager → ForkManager
create_child_process none m = m
create_child_process (some pid) m = record m {
  child_pids = m.child_pids ++ pid ∷ [];
  children = insert pid running m.children;
}

-- The body of the loop of `terminateAll`: `kill`, which does not ask whether the child is still
-- there, and `waitpid`, which returns when the child has ended or when there is none.
unfoldable pub terminate : ℕ → ForkManager → ForkManager
terminate pid m = record m { signalled = pid ∷ m.signalled; children = erase pid m.children }

abbrev pub terminate_each : List ℕ → ForkManager → ForkManager
terminate_each [] m = m
terminate_each (pid ∷ pids) m = terminate_each pids (terminate pid m)

unfoldable pub terminate_all : ForkManager → ForkManager
terminate_all m = let m' = terminate_each m.child_pids m in record m' { child_pids = [] }

-- `waitpid(pid, nullptr, WNOHANG) > 0`: the child has ended. For a child that runs the answer is 0,
-- for one that is not there -1.
unfoldable pub has_ended : Option Life → Bool
has_ended none = false
has_ended (some running) = false
has_ended (some ended) = true

-- The loop of `monitorChildren`: the identifiers that stay, and the children.
unfoldable pub monitor : List ℕ → Map ℕ Life → List ℕ × Map ℕ Life
monitor [] children = ([], children)
monitor (pid ∷ pids) children =
    let reaped = monitor pids (erase pid children) in
    let (kept, left) = monitor pids children in
    if has_ended (lookup pid children) then reaped else (pid ∷ kept, left)

unfoldable pub monitor_children : ForkManager → ForkManager
monitor_children m =
    let (kept, left) = monitor m.child_pids m.children in
    record m { child_pids = kept; children = left }

-- The loop of `sigchld_handler`: `waitpid(-1, &status, WNOHANG)` takes each child that has ended.
abbrev pub reap_all : Map ℕ Life → Map ℕ Life
reap_all [] = []
reap_all ((pid, life) ∷ children) =
    let left = reap_all children in if has_ended (some life) then left else (pid, life) ∷ left

unfoldable pub sigchld_handler : ForkManager → ForkManager
sigchld_handler m = record m { children = reap_all m.children }

-- What changes the state: the calls of `main`, the signal, and a child that ends by itself.
pub data Step : ForkManager → ForkManager → Type 0 where
  creates : (forked : Option ℕ) (m : ForkManager) → Step m (create_child_process forked m)
  monitors : (m : ForkManager) → Step m (monitor_children m)
  terminates : (m : ForkManager) → Step m (terminate_all m)
  signals : (m : ForkManager) → Step m (sigchld_handler m)
  ends :
      (pid : ℕ) (m : ForkManager)
      → lookup pid m.children ≡ some running
      → Step m (record m { children = insert pid ended m.children })

abbrev pub initial : ForkManager
initial = record { child_pids = []; children = []; signalled = [] }

pub data IsReachable : ForkManager → Type 0 where
  begin : IsReachable initial
  next : {m m' : ForkManager} → IsReachable m → Step m m' → IsReachable m'
