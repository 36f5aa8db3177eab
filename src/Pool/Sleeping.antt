-- ===== src/Pool/Sleeping.antt =====
-- How a thread of Core/mstd/threadPool.hpp misses the destructor's call.
use sok.Base.{
  nat_keys, ℕ, zero, suc, true, [], ◌∷◌, ◌++◌, List, ap, map, some, ◌≢◌, ◌≡◌, refl, arith,
  get_elem?, set, replicate, subst,
}
use sok.Base.Counting.{total-replicate}
use sok.Pool.{
  Worker, checking, falling, asleep, exited, running, Pool, create, is_falling, move_worker, look,
  finish, enqueue, notify_one, notify_none, set_stop, notify_all, Step, looks, sleeps, finishes,
  enqueues, notifies, notifies_none, stops, announces, wakes, IsReachable, created, after, wake,
}

-- No thread wakes up for no reason.
abbrev pub IsCaused : {s t : Pool} → Step s t → Type 0
IsCaused (wakes i e) = ⊥
IsCaused _ = Unit {0}

-- What comes after a state if no thread wakes up for no reason.
pub data Follows (s : Pool) : Pool → Type 0 where
  now : Follows s s
  next : {t u : Pool} → Follows s t → (step : Step t u) → IsCaused step → Follows s u

-- The destructor has called, no notice is due, and the first thread sleeps.
record IsLost (s : Pool) : Type 0 where
  stopped : s.stop ≡ true
  called : s.announced ≡ true
  none_due : s.notices ≡ 0
  sleeping : get_elem? s.workers 0 ≡ some asleep

set-first :
    (ws : List Worker) (i : ℕ) (old new : Worker)
    → get_elem? ws 0 ≡ some asleep
    → get_elem? ws i ≡ some old
    → old ≢ asleep
    → get_elem? (set ws i new) 0 ≡ some asleep
set-first [] i old new first e other = absurd (ground arith)
set-first (w ∷ ws) zero old new first e other = absurd (ground arith)
set-first (w ∷ ws) (suc i) old new first e other = first

-- The steps of another thread.
move-IsLost :
    (i : ℕ) (old new : Worker) (s : Pool)
    → get_elem? s.workers i ≡ some old
    → old ≢ asleep
    → IsLost s
    → IsLost (move_worker i new s)
unfolding move_worker
move-IsLost i old new s e other v = record {
  stopped = v.stopped;
  called = v.called;
  none_due = v.none_due;
  sleeping = set-first s.workers i old new v.sleeping e other;
}

look-IsLost :
    (i : ℕ) (s : Pool) (tasks : List ℕ)
    → s.tasks ≡ tasks
    → get_elem? s.workers i ≡ some checking
    → IsLost s
    → IsLost (look i s)
unfolding look move_worker
look-IsLost i s [] a e v =
    let stopped = v.stopped in
    let same : look i s ≡ move_worker i exited s = cc in
    rw same (move-IsLost i checking exited s e (ground arith) v)
look-IsLost i s (task ∷ rest) a e v =
    let w = move-IsLost i checking (running task) s e (ground arith) v in
    let taken : Pool = record (move_worker i (running task) s) {
      tasks = rest;
      started = s.started ++ task ∷ [];
    } in
    let same : look i s ≡ taken = cc in
    rw same (record {
      stopped = w.stopped;
      called = w.called;
      none_due = w.none_due;
      sleeping = w.sleeping;
    })

Step-IsLost : {s t : Pool} (step : Step s t) → IsCaused step → IsLost s → IsLost t
unfolding finish enqueue notify_one notify_none set_stop notify_all move_worker
Step-IsLost {s} (looks i e free) c v = look-IsLost i s s.tasks refl e v
Step-IsLost {s} (sleeps i e) c v = move-IsLost i falling asleep s e (ground arith) v
Step-IsLost {s} (finishes i task e) c v =
    let w = move-IsLost i (running task) checking s e (ground arith) v in
    record { stopped = w.stopped; called = w.called; none_due = w.none_due; sleeping = w.sleeping }
Step-IsLost {s} (enqueues task free) c v =
    let stopped = v.stopped in let same : enqueue task s ≡ s = cc in rw same v
Step-IsLost {s} (notifies i rest due e) c v = absurd (ground (arith, v.none_due))
Step-IsLost {s} (notifies_none rest due e) c v = absurd (ground (arith, v.none_due))
Step-IsLost {s} (stops e) c v = absurd (ground (arith, v.stopped))
Step-IsLost {s} (announces a b) c v = absurd (ground (arith, v.called))
Step-IsLost {s} (wakes i e) c v = absurd c

Follows-IsLost : {s t : Pool} → Follows s t → IsLost s → IsLost t
Follows-IsLost now v = v
Follows-IsLost (next f step c) v = Step-IsLost step c (Follows-IsLost f v)

-- The state behind the call, with all other threads still before the lock.
abbrev lost : ℕ → Pool
lost n = record {
  workers = asleep ∷ replicate n checking;
  tasks = [];
  stop = true;
  announced = true;
  notices = 0;
  accepted = [];
  started = [];
  executed = [];
}

map-wake_checking : (n : ℕ) → map wake (replicate n checking) ≡ replicate n checking
map-wake_checking zero = refl
map-wake_checking (suc n) = ap (◌∷◌ checking) (map-wake_checking n)

lost-IsReachable : (n : ℕ) → IsReachable (suc n) (lost n)
unfolding create look set_stop notify_all move_worker
lost-IsReachable n =
    let unlocked = total-replicate is_falling checking n refl in
    let begin : IsReachable (suc n) (create (suc n)) = created in
    let one = after begin (looks 0 refl (omega (arith, unlocked))) in
    let two = after (after one (stops refl)) (announces refl refl) in
    subst (IsReachable (suc n))
      (ap (λ ws. record (lost n) { workers = asleep ∷ ws }) (map-wake_checking n))
      (after two (sleeps 0 refl))

-- A pool of any size with a thread can come to a state in which the destructor has called
-- `notify_all` and a thread sleeps which, whatever else happens, does not wake up again unless it
-- does so for no reason, so that the destructor's `join` waits for it.
pub IsReachable-asleep :
    (n : ℕ)
    → (s : Pool) × IsReachable (suc n) s
      × (s.announced ≡ true)
      × ((t : Pool) → Follows s t → get_elem? t.workers 0 ≡ some asleep)
IsReachable-asleep n =
    let v : IsLost (lost n) = record {
      stopped = refl;
      called = refl;
      none_due = refl;
      sleeping = refl;
    } in
    (lost n, lost-IsReachable n, refl, λ t f. (Follows-IsLost f v).sleeping)
