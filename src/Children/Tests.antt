-- ===== src/Children/Tests.antt =====
-- Core/utils/ForkManager.hpp with two workers, one of which ends.
use sok.Base.{nat_keys, ℕ, none, some, ◌≡◌, refl}
use sok.Base.Map.{lookup, insert}
use sok.Children.{
  ForkManager, ended, create_child_process, monitor, monitor_children, terminate, terminate_all,
  sigchld_handler, has_ended, IsReachable, begin, next, creates, ends, signals, initial,
}
use sok.Children.Reaping.{IsKnown, IsReachable-terminate_all}

program : Unit {0}
unfolding create_child_process monitor monitor_children terminate terminate_all sigchld_handler
    has_ended
program = tt

abbrev two_workers : ForkManager
two_workers = create_child_process (some 11) (create_child_process (some 10) initial)

abbrev one_reaped : ForkManager
one_reaped =
    sigchld_handler (record two_workers { children = insert 10 ended two_workers.children })

one_reaped-IsReachable : IsReachable one_reaped
unfolding program
one_reaped-IsReachable =
    next (next (next (next begin (creates (some 10) _)) (creates (some 11) _)) (ends 10 _ refl))
      (signals _)

IsReachable-terminate_all_example :
    IsKnown one_reaped × ((q : ℕ) → lookup q (terminate_all one_reaped).children ≡ none)
IsReachable-terminate_all_example = IsReachable-terminate_all one_reaped one_reaped-IsReachable
