-- ===== src/Listen/Tests.antt =====
-- Core/utils/SocketUtils.hpp and `processWorker` of SOK.cpp on two ports.
use sok.Base.{nat_keys, ℕ, ◌+◌, true, false, [], ◌∷◌, ◌++◌, none, some, ◌≡◌, refl, arith, length}
use sok.Base.Int.{pos, negsuc}
use sok.Base.Map.{lookup}
use sok.Listen.{
  Answers, Process, htons, bound_port, setup_server, bind_server, configure_server, listen_port,
  listen_ports, enter_server,
}
use sok.Listen.Registry.{
  add, remove, run, get_port, first_added, or_minus_one, get_port-run, add_fd_port,
}
use sok.Listen.Reuse.{listen_ports_reused}
use sok.Listen.Serving.{IsServing, listen_ports-IsServing}

get_port-run_example :
    get_port 3 (run (add 3 (pos 80) ∷ add 3 (pos 81) ∷ remove 4 ∷ []) [])
    ≡ or_minus_one (first_added 3 (add 3 (pos 80) ∷ add 3 (pos 81) ∷ remove 4 ∷ []) none)
get_port-run_example = get_port-run 3 (add 3 (pos 80) ∷ add 3 (pos 81) ∷ remove 4 ∷ []) []

second_add_is_ignored : get_port 3 (run (add 3 (pos 80) ∷ add 3 (pos 81) ∷ []) []) ≡ pos 80
unfolding get_port add_fd_port
second_add_is_ignored = refl

abbrev all_well : ℕ → Answers
all_well fd = record {
  socket = some fd;
  get_flags = true;
  set_flags = true;
  reuse_addr = true;
  reuse_port = true;
  bind = true;
  listen = true;
  epoll_add = true;
  chosen = 0;
}

abbrev start : Process
start = record { sockets = (3, none) ∷ []; fd_port = []; server_fds = [] }

abbrev done : Process
done = record {
  sockets = (3, none) ∷ (4, some 80) ∷ (5, some 443) ∷ [];
  fd_port = (4, pos 80) ∷ (5, pos 443) ∷ [];
  server_fds = 4 ∷ 5 ∷ [];
}

program : Unit {0}
unfolding htons bound_port listen_ports listen_port setup_server configure_server bind_server
    enter_server add_fd_port
program = tt

listen_ports-IsServing_example :
    IsServing done × (length done.server_fds ≡ length start.server_fds + 2)
unfolding program
listen_ports-IsServing_example =
    listen_ports-IsServing ((pos 80, all_well 4) ∷ (pos 443, all_well 5) ∷ []) start done
      ((λ fd e. ground arith), (λ p e. ((λ fd e'. ground arith), (λ p' e'. tt)))) (refl, (refl, tt))
      (record { served = tt; only_open = λ fd closed. refl }) refl

wide_port : bound_port (pos 70000) 0 ≡ 4464
unfolding program
wide_port = refl

negative_port : bound_port (negsuc 0) 0 ≡ 65535
unfolding program
negative_port = refl

zero_port : bound_port (pos 65536) 40000 ≡ 40000
unfolding program
zero_port = refl

-- Port 80 could not be registered with epoll, and port 443 is served as port 80.
listen_ports_reused_example :
    (p' : Process) × (listen_ports
        ((pos 80, record (all_well 4) { epoll_add = false }) ∷ (pos 443, all_well 4) ∷ [])
        start
      ≡ some p')
    × (lookup 4 p'.sockets ≡ some (some 443))
    × (get_port 4 p'.fd_port ≡ pos 80)
    × (p'.server_fds ≡ [] ++ 4 ∷ [])
unfolding program
listen_ports_reused_example =
    listen_ports_reused (pos 80) (pos 443) (record (all_well 4) { epoll_add = false }) (all_well 4)
      4 start
      (record {
        socket = refl;
        get_flags = refl;
        set_flags = refl;
        reuse_addr = refl;
        reuse_port = refl;
        bind = refl;
        listen = refl;
      })
      (record {
        socket = refl;
        get_flags = refl;
        set_flags = refl;
        reuse_addr = refl;
        reuse_port = refl;
        bind = refl;
        listen = refl;
      })
      refl refl refl
