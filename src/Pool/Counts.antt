-- ===== src/Pool/Counts.antt =====
-- Where the tasks of the pool of Core/mstd/threadPool.hpp are.
use sok.Base.{
  nat_keys, ℕ, zero, suc, ◌+◌, Bool, true, false, List, [], ◌∷◌, ◌++◌, map, some, ◌==◌, ◌⊎◌, ◌≡◌,
  refl, sym, ap, ◌∙◌, arith, length, length-set, length-replicate, get_elem?, replicate,
  append_assoc, Bool-cases, inl, inr,
}
use sok.Base.Counting.{one_if, total, total-set, total-append, total-replicate, total-map}
use sok.Pool.{
  Worker, checking, falling, asleep, exited, running, Pool, create, move_worker, look, finish,
  enqueue, notify_one, notify_none, set_stop, notify_all, wake, Step, looks, sleeps, finishes,
  enqueues, notifies, notifies_none, stops, announces, wakes, IsReachable, created, after, is_live,
}

-- How often a task is in a list, and whether a thread is in it.
abbrev pub is_task : ℕ → ℕ → ℕ
is_task q task = one_if (task == q)

abbrev pub runs : ℕ → Worker → ℕ
runs q (running task) = one_if (task == q)
runs q _ = 0

-- Tasks are taken in the order in which they are accepted, each that is taken is at work or done,
-- and once a thread has returned the queue is empty for good.
pub record IsKept (n : ℕ) (s : Pool) : Type 0 where
  pub order : s.accepted ≡ s.started ++ s.tasks
  pub counts :
      (q : ℕ)
      → total (is_task q) s.started ≡ total (is_task q) s.executed + total (runs q) s.workers
  pub staffed : length s.workers ≡ n
  pub closed : (total is_live s.workers ≡ n) ⊎ ((s.stop ≡ true) × (s.tasks ≡ []))

-- A thread that neither starts, ends nor runs a task.
move-IsKept :
    (n i : ℕ) (old new : Worker) (s : Pool)
    → get_elem? s.workers i ≡ some old
    → is_live old ≡ is_live new
    → ((q : ℕ) → runs q old ≡ runs q new)
    → IsKept n s
    → IsKept n (move_worker i new s)
unfolding move_worker
move-IsKept n i old new s e live same v =
    let lives = total-set is_live s.workers i old new e in
    record {
      order = v.order;
      counts = λ q. omega (arith, v.counts q, same q, total-set (runs q) s.workers i old new e);
      staffed = length-set s.workers i new ∙ v.staffed;
      closed = ground (arith, v.closed);
    }

-- A thread that takes the first task.
take-IsKept :
    (n i task : ℕ) (rest : List ℕ) (s : Pool)
    → get_elem? s.workers i ≡ some checking
    → s.tasks ≡ task ∷ rest
    → IsKept n s
    → IsKept n
        (record (move_worker i (running task) s) { tasks = rest; started = s.started ++ task ∷ [] })
unfolding move_worker
take-IsKept n i task rest s e more v =
    let lives = total-set is_live s.workers i checking (running task) e in
    record {
      order =
          v.order ∙ ap (λ ts. s.started ++ ts) more ∙ sym (append_assoc s.started (task ∷ []) rest);
      counts = λ q. omega (
        arith,
        v.counts q,
        total-append (is_task q) s.started (task ∷ []),
        total-set (runs q) s.workers i checking (running task) e,
      );
      staffed = length-set s.workers i (running task) ∙ v.staffed;
      closed = ground (arith, v.closed);
    }

return-IsKept :
    (n i : ℕ) (s : Pool)
    → get_elem? s.workers i ≡ some checking
    → s.tasks ≡ []
    → s.stop ≡ true
    → IsKept n s
    → IsKept n (move_worker i exited s)
unfolding move_worker
return-IsKept n i s e none_left stopped v = record {
  order = v.order;
  counts = λ q. omega (arith, v.counts q, total-set (runs q) s.workers i checking exited e);
  staffed = length-set s.workers i exited ∙ v.staffed;
  closed = inr (stopped, none_left);
}

look-IsKept :
    (n i : ℕ) (s : Pool) (tasks : List ℕ) (stop : Bool)
    → s.tasks ≡ tasks
    → s.stop ≡ stop
    → get_elem? s.workers i ≡ some checking
    → IsKept n s
    → IsKept n (look i s)
unfolding look
look-IsKept n i s [] true a b e v =
    let same : look i s ≡ move_worker i exited s = cc in rw same (return-IsKept n i s e a b v)
look-IsKept n i s [] false a b e v =
    let same : look i s ≡ move_worker i falling s = cc in
    rw same (move-IsKept n i checking falling s e refl (λ q. refl) v)
look-IsKept n i s (task ∷ rest) stop a b e v =
    let taken : Pool = record (move_worker i (running task) s) {
      tasks = rest;
      started = s.started ++ task ∷ [];
    } in
    let same : look i s ≡ taken = cc in rw same (take-IsKept n i task rest s e a v)

finish-IsKept :
    (n i task : ℕ) (s : Pool)
    → get_elem? s.workers i ≡ some (running task)
    → IsKept n s
    → IsKept n (finish i task s)
unfolding finish move_worker
finish-IsKept n i task s e v =
    let lives = total-set is_live s.workers i (running task) checking e in
    record {
      order = v.order;
      counts = λ q. omega (
        arith,
        v.counts q,
        total-append (is_task q) s.executed (task ∷ []),
        total-set (runs q) s.workers i (running task) checking e,
      );
      staffed = length-set s.workers i checking ∙ v.staffed;
      closed = ground (arith, v.closed);
    }

enqueue-IsKept : (n task : ℕ) (s : Pool) → IsKept n s → IsKept n (enqueue task s)
unfolding enqueue
enqueue-IsKept n task s v = elim (Bool-cases s.stop) [
  | inl stopped ↦ simp stopped v
  | inr going ↦ simp going (record {
    order = ap (λ ts. ts ++ task ∷ []) v.order ∙ append_assoc s.started s.tasks (task ∷ []);
    counts = v.counts;
    staffed = v.staffed;
    closed = ground (arith, v.closed, going);
  })
]

wake-live : (w : Worker) → is_live (wake w) ≡ is_live w
wake-live w = ground arith

wake-runs : (q : ℕ) (w : Worker) → runs q (wake w) ≡ runs q w
wake-runs q w = ground arith

length-map : (f : Worker → Worker) (ws : List Worker) → length (map f ws) ≡ length ws
length-map f [] = refl
length-map f (w ∷ ws) = ap suc (length-map f ws)

notify_all-IsKept : (n : ℕ) (s : Pool) → IsKept n s → IsKept n (notify_all s)
unfolding notify_all
notify_all-IsKept n s v = record {
  order = v.order;
  counts = λ q. v.counts q ∙ omega (arith, total-map (runs q) wake s.workers (wake-runs q));
  staffed = length-map wake s.workers ∙ v.staffed;
  closed = ground (arith, v.closed, total-map is_live wake s.workers wake-live);
}

Step-IsKept : (n : ℕ) {s t : Pool} → Step s t → IsKept n s → IsKept n t
unfolding notify_one notify_none set_stop
Step-IsKept n {s} (looks i e free) v = look-IsKept n i s s.tasks s.stop refl refl e v
Step-IsKept n {s} (sleeps i e) v = move-IsKept n i falling asleep s e refl (λ q. refl) v
Step-IsKept n {s} (finishes i task e) v = finish-IsKept n i task s e v
Step-IsKept n {s} (enqueues task free) v = enqueue-IsKept n task s v
Step-IsKept n {s} (notifies i rest due e) v =
    let w = move-IsKept n i asleep checking s e refl (λ q. refl) v in
    record { order = w.order; counts = w.counts; staffed = w.staffed; closed = w.closed }
Step-IsKept n {s} (notifies_none rest due e) v = record {
  order = v.order;
  counts = v.counts;
  staffed = v.staffed;
  closed = v.closed;
}
Step-IsKept n {s} (stops e) v = record {
  order = v.order;
  counts = v.counts;
  staffed = v.staffed;
  closed = ground (arith, v.closed);
}
Step-IsKept n {s} (announces a b) v = notify_all-IsKept n s v
Step-IsKept n {s} (wakes i e) v = move-IsKept n i asleep checking s e refl (λ q. refl) v

all_live : (n : ℕ) → total is_live (replicate n checking) ≡ n
all_live zero = refl
all_live (suc n) = omega (arith, all_live n)

create-IsKept : (n : ℕ) → IsKept n (create n)
unfolding create
create-IsKept n = record {
  order = refl;
  counts = λ q. omega (arith, total-replicate (runs q) checking n refl);
  staffed = length-replicate n checking;
  closed = inl (all_live n);
}

pub IsReachable-IsKept : {n : ℕ} {s : Pool} → IsReachable n s → IsKept n s
IsReachable-IsKept {n} created = create-IsKept n
IsReachable-IsKept {n} (after r step) = Step-IsKept n step (IsReachable-IsKept r)
