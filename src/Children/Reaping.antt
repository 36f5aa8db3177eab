-- ===== src/Children/Reaping.antt =====
-- Which children Core/utils/ForkManager.hpp knows, and what it does with them.
use sok.Base.{
  nat_keys, ℕ, Bool, true, false, ◌||◌, List, [], ◌∷◌, ◌++◌, none, some, if◌then◌else◌, ◌==◌, ◌≡◌,
  refl, arith, Bool-cases, Option-cases, inl, inr,
}
use sok.Base.Map.{Map, lookup, erase, lookup-insert, lookup-erase}
use sok.Children.{
  Life, running, ended, ForkManager, create_child_process, terminate, terminate_each, terminate_all,
  has_ended, monitor, monitor_children, reap_all, sigchld_handler, Step, creates, monitors,
  terminates, signals, ends, IsReachable, begin, next,
}

-- The number is in the list.
abbrev pub has : ℕ → List ℕ → Bool
has x [] = false
has x (y ∷ ys) = y == x || has x ys

has-append : (x y : ℕ) (ys : List ℕ) → has x (ys ++ y ∷ []) ≡ (has x ys || y == x)
has-append x y [] = ground arith
has-append x y (z ∷ ys) = ground (arith, has-append x y ys)

-- Each child of the kernel's table is known.
abbrev pub IsKnown : ForkManager → Type 0
IsKnown m =
    (pid : ℕ) (life : Life) → lookup pid m.children ≡ some life → has pid m.child_pids ≡ true

lookup-terminate_each :
    (q : ℕ) (pids : List ℕ) (m : ForkManager)
    → lookup q (terminate_each pids m).children ≡ (if has q pids then none else lookup q m.children)
unfolding terminate
lookup-terminate_each q [] m = refl
lookup-terminate_each q (pid ∷ pids) m =
    ground (arith, lookup-terminate_each q pids (terminate pid m), lookup-erase pid q m.children)

pub terminate_all-leaves :
    (m : ForkManager) → IsKnown m → (q : ℕ) → lookup q (terminate_all m).children ≡ none
unfolding terminate_all
terminate_all-leaves m known q = elim (Option-cases (lookup q m.children)) [
  | inl gone ↦ ground (arith, lookup-terminate_each q m.child_pids m)
  | inr (life, there) ↦ ground (arith, lookup-terminate_each q m.child_pids m, known q life there)
]

-- A child that is there after the loop was there before, and the loop keeps its identifier.
pub monitor-keeps :
    (q : ℕ) (life : Life) (pids : List ℕ) (children : Map ℕ Life)
    → lookup q (monitor pids children).1 ≡ some life
    → (lookup q children ≡ some life) × (has q pids ≡ true → has q (monitor pids children).0 ≡ true)
unfolding monitor
monitor-keeps q life [] children there = (there, λ h. h)
monitor-keeps q life (pid ∷ pids) children there =
    elim (Bool-cases (has_ended (lookup pid children))) [
      | inl over ↦
          let (found, keeps) = monitor-keeps q life pids (erase pid children) (ground arith) in
          let other : (pid == q) ≡ false = ground (arith, found, lookup-erase pid q children) in
          (ground (arith, found, lookup-erase pid q children), λ h. ground (arith, keeps))
      | inr stays ↦
          let (found, keeps) = monitor-keeps q life pids children (ground arith) in
          (found, λ h. ground (arith, keeps))
    ]

-- A child that is gone is no reason to drop its identifier.
monitor-gone :
    (q : ℕ) (pids : List ℕ) (children : Map ℕ Life)
    → lookup q children ≡ none
    → (has q pids ≡ true → has q (monitor pids children).0 ≡ true)
      × (lookup q (monitor pids children).1 ≡ none)
unfolding monitor has_ended
monitor-gone q [] children gone = ((λ h. h), gone)
monitor-gone q (pid ∷ pids) children gone = elim (Bool-cases (has_ended (lookup pid children))) [
  | inl over ↦
      let other : (pid == q) ≡ false = ground (arith, gone) in
      let (keeps, left) =
        monitor-gone q pids (erase pid children)
          (ground (arith, gone, lookup-erase pid q children)) in
      ((λ h. ground (arith, keeps)), ground arith)
  | inr stays ↦
      let (keeps, left) = monitor-gone q pids children gone in
      ((λ h. ground (arith, keeps)), ground arith)
]

pub lookup-reap_all :
    (q : ℕ) (children : Map ℕ Life) → lookup q children ≡ none → lookup q (reap_all children) ≡ none
lookup-reap_all q [] gone = refl
lookup-reap_all q ((pid, life) ∷ children) gone = ground (arith, lookup-reap_all q children)

pub Step-IsKnown : (m m' : ForkManager) → Step m m' → IsKnown m → IsKnown m'
unfolding create_child_process monitor_children terminate_all sigchld_handler
Step-IsKnown m _ (creates none _) known = known
Step-IsKnown m _ (creates (some pid) _) known = λ q life there.
    ground
      (arith, has-append q pid m.child_pids, lookup-insert pid q running m.children, known q life)
Step-IsKnown m _ (monitors _) known = λ q life there.
    let (found, keeps) = monitor-keeps q life m.child_pids m.children there in
    keeps (known q life found)
Step-IsKnown m _ (terminates _) known =
    λ q life there. absurd (ground (arith, terminate_all-leaves m known q))
Step-IsKnown m _ (signals _) known = λ q life there. elim (Option-cases (lookup q m.children)) [
  | inl gone ↦ absurd (ground (arith, lookup-reap_all q m.children gone))
  | inr (before, found) ↦ known q before found
]
Step-IsKnown m _ (ends pid _ runs) known = λ q life there.
    ground (arith, known pid running runs, known q life, lookup-insert pid q ended m.children)

pub IsReachable-IsKnown : (m : ForkManager) → IsReachable m → IsKnown m
IsReachable-IsKnown m begin = λ q life there. absurd (ground arith)
IsReachable-IsKnown m (next {m = m₀} r step) = Step-IsKnown m₀ m step (IsReachable-IsKnown m₀ r)

signalled-terminate_each :
    (q : ℕ) (pids : List ℕ) (m : ForkManager)
    → has q (terminate_each pids m).signalled ≡ (has q pids || has q m.signalled)
unfolding terminate
signalled-terminate_each q [] m = refl
signalled-terminate_each q (pid ∷ pids) m =
    ground (arith, signalled-terminate_each q pids (terminate pid m))

-- In every state that the calls of `main`, the signals and the children's ends can bring about, all
-- children are known, and `terminateAll` leaves none behind, running or ended.
pub IsReachable-terminate_all :
    (m : ForkManager)
    → IsReachable m
    → IsKnown m × ((q : ℕ) → lookup q (terminate_all m).children ≡ none)
IsReachable-terminate_all m r =
    let known = IsReachable-IsKnown m r in (known, terminate_all-leaves m known)

-- An identifier whose child is gone stays through `monitorChildren`, and the next `terminateAll`
-- sends SIGTERM to it.
pub monitor_children-gone :
    (m : ForkManager) (pid : ℕ)
    → has pid m.child_pids ≡ true
    → lookup pid m.children ≡ none
    → (has pid (monitor_children m).child_pids ≡ true)
      × (has pid (terminate_all (monitor_children m)).signalled ≡ true)
unfolding monitor_children terminate_all
monitor_children-gone m pid known gone =
    let kept = (monitor-gone pid m.child_pids m.children gone).0 known in
    (
      kept,
      ground (
        arith,
        kept,
        signalled-terminate_each pid (monitor_children m).child_pids (monitor_children m),
      ),
    )
