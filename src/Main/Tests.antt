-- ===== src/Main/Tests.antt =====
-- `main` of SOK.cpp with two cores, commands, and a configuration that changes.
use sok.Base.{nat_keys, ◌+◌, ◌*◌, true, [], ◌∷◌, Option, none, some, ◌≡◌, refl, arith}
use sok.Base.Int.{pos}
use sok.Base.Text.{Bytes, bytes_keys, codes}
use sok.Children.{
  running, ForkManager, create_child_process, monitor, monitor_children, terminate, terminate_all,
  has_ended, sigchld_handler, initial,
}
use sok.FileCache
use sok.FileCache.{FileView, load_file, read_into, get_file_size, get_file_last_write_time}
use sok.FileCache.Refine.{init-IsValid}
use sok.Http.Decimal.{value_from}
use sok.Http.Parse.{print_request}
use sok.Http.Request.{file_path_of}
use sok.Http.Scan.{is_space}
use sok.Https.Objects.{contains}
use sok.Main.{
  Child, Server, goes_on, start, settings, enter_settings, enter_ports, cores_of, fork_worker,
  fork_workers, loaded, load, Round, happen, restart, obey, round, main_loop, main, returned, waits,
}
use sok.Main.Forked.{IsWell, NoChild, NoChild-IsWell}
use sok.Main.Input.{main_loop_idle, main_loop_exit}
use sok.Main.Restart.{round-Answered}
use sok.Main.Rounds.{Stands, main-Stands}
use sok.Site.{read_ports, server_ports}
use sok.Site.Listening
use sok.Worker.{Worker}
use sok.Worker.Serving.{Answered}
use sok.Worker.Start.{new_worker}
use sok.Yaml.{Fields, int, unquote, get_array, get_int}
use sok.Yaml
use sok.Yaml.Cursor.{scalar, inner}
use sok.Yaml.Lines.{starts, trim_back, is_white}
use sok.Yaml.Tree.{emplace, assign, push_back}
use sok.Main.Example.{file, config, is_parsed, line, event, line-IsGet, path-IsOnDisk}

program : Unit {0}
unfolding create_child_process monitor monitor_children terminate terminate_all has_ended
    sigchld_handler start settings enter_settings enter_ports cores_of read_ports server_ports
    get_array get_int fork_worker fork_workers loaded load restart obey round happen contains
    print_request file_path_of load_file read_into get_file_size get_file_last_write_time is_space
    trim_back is_white starts value_from scalar inner unquote emplace assign push_back
    FileCache.init
program = tt

abbrev turn : Option Bytes → Round
turn input = record { meanwhile = []; input = input; file = file; forks = λ i. some (20 + i) }

main-Stands_example : Stands (
    main
      (λ n. true)
      (λ t. true)
      file
      4
      (λ i. some (10 + i))
      (turn (some (codes "restart")) ∷ turn none ∷ []))
main-Stands_example =
    main-Stands (λ n. true) (λ t. true) file 4 (λ i. some (10 + i))
      (turn (some (codes "restart")) ∷ turn none ∷ [])

-- It waits on port 8080.
abbrev server : Server
server = record {
  running = true;
  config = Yaml.end;
  ports = pos 8080 ∷ [];
  cpu_cores = 1;
  manager = initial;
  forked = [];
}

server-IsWell : IsWell server
server-IsWell = NoChild-IsWell server (λ pid. refl)

main_loop_idle_example :
    (s' : Server) × (main_loop
        (λ n. true)
        (λ t. true)
        (turn none ∷ turn (some (codes "help")) ∷ [])
        server
      ≡ waits s')
    × (s'.running ≡ true)
main_loop_idle_example =
    main_loop_idle (λ n. true) (λ t. true) (turn none ∷ turn (some (codes "help")) ∷ []) server refl
      (
        record { quiet = tt; no_restart = refl; no_exit = refl },
        (record { quiet = tt; no_restart = refl; no_exit = refl }, tt),
      )

main_loop_exit_example :
    (m : ForkManager) × (main_loop
        (λ n. true)
        (λ t. true)
        (turn none ∷ turn (some (codes "exit")) ∷ turn none ∷ [])
        server
      ≡ returned m)
    × NoChild m
main_loop_exit_example =
    main_loop_exit (λ n. true) (λ t. true) (turn none ∷ []) (turn (some (codes "exit")))
      (turn none ∷ []) server refl server-IsWell
      (record { quiet = tt; no_restart = refl; no_exit = refl }, tt) refl

abbrev child : Child
child = record { config = config; ports = pos 8080 ∷ [] }

abbrev restarted : Server
restarted = record {
  running = true;
  config = config;
  ports = pos 8080 ∷ [];
  cpu_cores = 1;
  manager = record { child_pids = 20 ∷ []; children = (20, running) ∷ []; signalled = [] };
  forked = (20, child) ∷ [];
}

went : round (λ n. true) (λ t. true) (turn (some (codes "restart"))) server ≡ goes_on restarted
unfolding program
went = rw is_parsed refl

two_start :
    start (λ n. true) (λ t. true) file 4 (λ i. some (10 + i))
    ≡ goes_on (record {
      running = true;
      config = config;
      ports = pos 9090 ∷ [];
      cpu_cores = 2;
      manager = record {
        child_pids = 10 ∷ 11 ∷ [];
        children = (10, running) ∷ (11, running) ∷ [];
        signalled = [];
      };
      forked =
          (10, record { config = config; ports = pos 9090 ∷ [] })
          ∷ (11, record { config = config; ports = pos 9090 ∷ [] })
          ∷ [];
    })
unfolding program
two_start = rw is_parsed refl

abbrev worker : Worker
worker =
    record (new_worker config (record {
      sockets = (4, some 8080) ∷ [];
      fd_port = (4, pos 8080) ∷ [];
      server_fds = 4 ∷ [];
    })) { client_map_port = (9, pos 8080) ∷ [] }

-- Port 8080 has left the configuration.
round-Answered_example :
    (config ≡ config)
    × (Listening.contains (pos 8080) (pos 8080 ∷ []) ≡ true)
    × (file_path_of [] (codes "/etc/a") ≡ codes "/etc/a")
    × Answered 9
        (pos 8080)
        line
        []
        []
        event
        worker
        (path-IsOnDisk (file_path_of [] (codes "/etc/a")))
unfolding program
round-Answered_example =
    round-Answered (λ n. true) (λ t. true) (turn (some (codes "restart"))) server restarted config
      (pos 9090 ∷ []) (pos 8080) 20 running child worker event line [] server-IsWell refl is_parsed
      refl refl refl went refl refl refl
      (record { client = refl; known = refl; valid = init-IsValid (1024 * 1024 * 50) }) line-IsGet
      (λ e. absurd (ground arith)) (path-IsOnDisk (file_path_of [] (codes "/etc/a")))
