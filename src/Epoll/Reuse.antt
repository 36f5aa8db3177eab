-- ===== src/Epoll/Reuse.antt =====
-- What happens in Core/mstd/EpollManager.hpp if the kernel gives a descriptor again as soon as it is
-- closed, which it may.
use sok.Base.{
  nat_keys, ℕ, suc, true, false, List, [], ◌∷◌, some, ◌≡◌, refl, arith, get_elem?, replicate, subst,
}
use sok.Base.Int.{ℤ}
use sok.Base.Map.{lookup}
use sok.Epoll.{
  FdSet, Thread, waiting, handling, closing, forgetting, leaving, Stage, next_event, marked,
  fetching, Loop, start, accept, mark, check_client, enqueue_task, take_task, handled, close_client,
  forget_client, leave, Step, accepts, event, checks, enqueues, takes, returns, closes, forgets,
  leaves, Reach, here, later,
}

-- A step, and the state that it comes to.
then_step : {s t u v : Loop} → Reach s t → Step t u → u ≡ v → Reach s v
then_step {s} r step e = subst (Reach s) e (later r step)

module _ (fd : ℕ) (port : ℤ) (n : ℕ) where
  -- The tables for this descriptor only, and the first two threads.
  abbrev tables : List (ℕ × ℤ) → FdSet → List (ℕ × ℤ) → Thread → Thread → Stage → FdSet → Loop
  tables clients marks tasks t u stage open_fds = record {
    client_map_port = clients;
    working_fds = marks;
    tasks = tasks;
    threads = t ∷ u ∷ replicate n waiting;
    stage = stage;
    open_fds = open_fds;
  }

  abbrev one : List (ℕ × ℤ)
  one = (fd, port) ∷ []

  abbrev this : FdSet
  this = (fd, tt) ∷ []

  -- From an accepted connection to its task, with what the threads do meanwhile.
  to_task :
      {s : Loop} (t u : Thread)
      → Reach s (tables one [] [] t u next_event this)
      → Reach s (tables one this one t u next_event this)
  unfolding mark check_client enqueue_task
  to_task t u r =
      let same = nat_keys.same_iff fd fd in
      then_step {v = tables one this one t u next_event this}
        (then_step {v = tables one this [] t u (fetching fd) this}
          (then_step {v = tables one this [] t u (marked fd false) this} r (event fd refl)
            (ground arith))
          (checks fd false refl) (ground (arith, same)))
        (enqueues fd refl) (ground (arith, same))

  -- The first connection has been closed by the first thread, which has not forgotten it.
  closed_once :
      Reach (start (suc (suc n))) (tables one this [] (forgetting fd) waiting next_event [])
  unfolding start accept take_task handled close_client
  closed_once =
      let same = nat_keys.same_iff fd fd in
      then_step {v = tables one this [] (forgetting fd) waiting next_event []}
        (then_step {v = tables one this [] (closing fd) waiting next_event this}
          (then_step {v = tables one this [] (handling fd port) waiting next_event this}
            (to_task waiting waiting (
              then_step {v = tables one [] [] waiting waiting next_event this} here
                (accepts fd port refl refl) (ground arith)))
            (takes 0 fd port [] refl refl) (ground arith))
          (returns 0 fd port false refl) (ground arith))
        (closes 0 fd refl) (ground (arith, same))

  -- With two threads or more the loop can come to a state in which two of them serve the same
  -- connection: an event of the closed descriptor takes the mark away that the first thread still
  -- has to remove, and this thread then removes the mark of the next connection.
  pub Reach-two_threads :
      (s : Loop) × Reach (start (suc (suc n))) s
      × (get_elem? s.threads 0 ≡ some (handling fd port))
      × (get_elem? s.threads 1 ≡ some (handling fd port))
      × (lookup fd s.open_fds ≡ some tt)
  unfolding accept mark check_client take_task forget_client leave
  Reach-two_threads =
      let same = nat_keys.same_iff fd fd in
      let stale =
        then_step {v = tables one this [] (forgetting fd) waiting (marked fd true) []} closed_once
          (event fd refl) (ground (arith, same)) in
      let forgotten =
        then_step {v = tables [] this [] (leaving fd) waiting (marked fd true) []} stale
          (forgets 0 fd refl) (ground (arith, same)) in
      let unmarked =
        then_step {v = tables [] [] [] (leaving fd) waiting next_event []} forgotten
          (checks fd true refl) (ground (arith, same)) in
      let again =
        then_step {v = tables one [] [] (leaving fd) waiting next_event this} unmarked
          (accepts fd port refl refl) (ground arith) in
      let served =
        then_step {v = tables one this [] (leaving fd) (handling fd port) next_event this}
          (to_task (leaving fd) waiting again) (takes 1 fd port [] refl refl) (ground arith) in
      let left =
        then_step {v = tables one [] [] waiting (handling fd port) next_event this} served
          (leaves 0 fd refl) (ground (arith, same)) in
      (
        tables one this [] (handling fd port) (handling fd port) next_event this,
        then_step (to_task waiting (handling fd port) left) (takes 0 fd port [] refl refl)
            (ground arith),
        refl,
        refl,
        ground (arith, same),
      )

  -- The loop can come to a state in which a connection is open that no thread serves and no event
  -- changes: its port went with the connection that had the descriptor before. Whenever it is
  -- readable, the loop handles the event and is where it was.
  pub Reach-forgotten :
      (s : Loop) × Reach (start (suc (suc n))) s
      × (lookup fd s.open_fds ≡ some tt)
      × (s.threads ≡ replicate (suc (suc n)) waiting)
      × (s.tasks ≡ [])
      × ((t : Loop) → mark fd s ≡ t → (t.stage ≡ marked fd false) × (check_client fd false t ≡ s))
  unfolding accept mark check_client forget_client leave
  Reach-forgotten =
      let same = nat_keys.same_iff fd fd in
      let again =
        then_step {v = tables one this [] (forgetting fd) waiting next_event this} closed_once
          (accepts fd port refl refl) (ground (arith, same)) in
      let forgotten =
        then_step {v = tables [] this [] (leaving fd) waiting next_event this} again
          (forgets 0 fd refl) (ground (arith, same)) in
      (
        tables [] [] [] waiting waiting next_event this,
        then_step forgotten (leaves 0 fd refl) (ground (arith, same)),
        ground (arith, same),
        refl,
        refl,
        λ t e. (ground (arith, e), ground (arith, e, same)),
      )
