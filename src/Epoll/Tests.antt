-- ===== src/Epoll/Tests.antt =====
-- Core/mstd/EpollManager.hpp with small pools.
use sok.Base.{is_some, nat_keys, ℕ, true, false, [], some, ◌≡◌, refl, get_elem?, replicate}
use sok.Base.Int.{pos}
use sok.Base.Map.{lookup}
use sok.Epoll.{
  waiting, handling, marked, Loop, start, accept, mark, check_client, enqueue_task, take_task,
  accepts, event, checks, enqueues, takes, Reach,
}
use sok.Epoll.Exclusion.{Run, begin, goes, Run-one_thread}
use sok.Epoll.Reuse.{Reach-two_threads, Reach-forgotten}

program : Unit {0}
unfolding start accept mark check_client enqueue_task take_task
program = tt

abbrev queued_one : Loop
queued_one = enqueue_task 7 (check_client 7 false (mark 7 (accept 7 (pos 80) (start 2))))

abbrev serving_one : Loop
serving_one = take_task 1 7 (pos 80) [] queued_one

serving_one-Run : Run 2 serving_one
unfolding program
serving_one-Run =
    goes
      (goes
        (goes (goes (goes begin (accepts 7 (pos 80) refl refl) refl) (event 7 refl) tt)
          (checks 7 false refl) tt)
        (enqueues 7 refl) tt)
      (takes 1 7 (pos 80) [] refl refl) tt

Run-one_thread_example :
    (◌≡◌ {A = ℕ} 1 1)
    × (is_some (lookup 7 serving_one.working_fds) ≡ true)
    × (is_some (lookup 7 serving_one.client_map_port) ≡ true)
unfolding program
Run-one_thread_example =
    Run-one_thread 7 1 1 (handling 7 (pos 80)) (handling 7 (pos 80)) serving_one-Run refl refl refl
      refl

Reach-two_threads_example :
    (s : Loop) × Reach (start 3) s
    × (get_elem? s.threads 0 ≡ some (handling 7 (pos 80)))
    × (get_elem? s.threads 1 ≡ some (handling 7 (pos 80)))
    × (lookup 7 s.open_fds ≡ some tt)
Reach-two_threads_example = Reach-two_threads 7 (pos 80) 1

Reach-forgotten_example :
    (s : Loop) × Reach (start 2) s
    × (lookup 7 s.open_fds ≡ some tt)
    × (s.threads ≡ replicate 2 waiting)
    × (s.tasks ≡ [])
    × ((t : Loop) → mark 7 s ≡ t → (t.stage ≡ marked 7 false) × (check_client 7 false t ≡ s))
Reach-forgotten_example = Reach-forgotten 7 (pos 80) 0
