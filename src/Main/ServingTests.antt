-- ===== src/Main/ServingTests.antt =====
-- From the start of `main` in SOK.cpp to the answer to a request, with one site and two cores.
use sok.Base.{nat_keys, ℕ, ◌+◌, ◌*◌, true, [], ◌∷◌, none, some, ◌≡◌, refl, arith}
use sok.Base.Int.{pos}
use sok.Base.Text.{codes}
use sok.Children.{running, create_child_process}
use sok.FileCache
use sok.FileCache.{get_file_size}
use sok.Http.Request.{file_path_of}
use sok.Https.Objects.{contains}
use sok.Listen.{
  Answers, htons, bound_port, listen_ports, listen_port, setup_server, configure_server,
  bind_server, enter_server,
}
use sok.Listen.Registry.{get_port, add_fd_port}
use sok.Main.{
  Server, goes_on, start, settings, enter_settings, enter_ports, cores_of, fork_worker,
  fork_workers, loaded, load,
}
use sok.Main.Example.{
  site, site_is_written, limits, limits_are_written, config, file, is_parsed, line, event,
  line-IsGet, path-IsOnDisk,
}
use sok.Main.Serving.{IsForked, IsSession, start-Answered}
use sok.Site.{read_ports, server_ports}
use sok.Worker.{Worker, Event, handle_event, accept_client}
use sok.Worker.Objects.{AreFit}
use sok.Worker.Serving.{Answered}
use sok.Worker.Start.{
  create_ssl_ctx, new_worker, size_t_of, make_threads, wait_for_events, enter_loop,
  listen_and_enter, process_worker,
}
use sok.Yaml.{get_array, get_int, unquote}
use sok.Yaml.Tree.{emplace, assign, push_back}

program : Unit {0}
unfolding create_child_process start settings enter_settings enter_ports cores_of fork_worker
    fork_workers loaded load read_ports server_ports get_array get_int unquote emplace assign
    push_back listen_ports listen_port setup_server configure_server bind_server enter_server
    get_port add_fd_port htons bound_port create_ssl_ctx size_t_of make_threads wait_for_events
    enter_loop listen_and_enter process_worker handle_event accept_client contains get_file_size
    file_path_of FileCache.init
program = tt

abbrev server : Server
server = record {
  running = true;
  config = config;
  ports = pos 9090 ∷ [];
  cpu_cores = 2;
  manager = record {
    child_pids = 10 ∷ 11 ∷ [];
    children = (10, running) ∷ (11, running) ∷ [];
    signalled = [];
  };
  forked =
      (10, record { config = config; ports = pos 9090 ∷ [] })
      ∷ (11, record { config = config; ports = pos 9090 ∷ [] })
      ∷ [];
}

abbrev all_well : Answers
all_well = record {
  socket = some 4;
  get_flags = true;
  set_flags = true;
  reuse_addr = true;
  reuse_port = true;
  bind = true;
  listen = true;
  epoll_add = true;
  chosen = 0;
}

abbrev worker : Worker
worker = new_worker config (record {
  sockets = (3, none) ∷ (4, some 9090) ∷ [];
  fd_port = (4, pos 9090) ∷ [];
  server_fds = 4 ∷ [];
})

started : start (λ n. true) (λ t. true) file 4 (λ i. some (10 + i)) ≡ goes_on server
unfolding program
started = rw is_parsed refl

worker-IsForked : IsForked (λ n. true) (λ t. true) site [] server worker
unfolding program
worker-IsForked = record {
  above = [];
  below = limits;
  are_above = tt;
  are_below = limits_are_written;
  are_sites = site_is_written;
  hardware = 4;
  forks = λ i. some (10 + i);
  started = started;
  pid = 11;
  life = running;
  there = refl;
  child = record { config = config; ports = pos 9090 ∷ [] };
  given = refl;
  epoll = true;
  ssl = record { made = true; certificate = true; private_key = true; matching = true };
  available = 8;
  ports = (pos 9090, all_well) ∷ [];
  ports_given = refl;
  before = record { sockets = (3, none) ∷ []; fd_port = []; server_fds = [] };
  unregistered = refl;
  unlistened = refl;
  fresh = ((λ fd e. ground arith), (λ p' e. tt));
  taken = (refl, tt);
  entered = refl;
}

abbrev connection : ℕ → Event
connection fd = record event {
  fd = 4;
  accepted = some fd;
  client = record event.client { secure = record event.client.secure { client_fd = 4 } };
}

abbrev two_clients : Worker
two_clients = record worker { client_map_port = (9, pos 9090) ∷ (10, pos 9090) ∷ [] }

connections-AreFit : AreFit (connection 9 ∷ connection 10 ∷ []) worker
unfolding program
connections-AreFit = (
  (refl, (λ p. omega arith), (λ p. omega arith)),
  λ w' e.
      let plain : 1024 * 1024 * 50 ≡ w'.handlers.http_cache.max_size = ground arith in
      let secure : 1024 * 1024 * 50 ≡ w'.handlers.https_cache.max_size = ground arith in
      ((refl, (λ p. omega (arith, plain)), (λ p. omega (arith, secure))), λ w'' e'. tt),
)

line-IsSession : IsSession site [] worker two_clients (pos 9090) site event line []
unfolding program
line-IsSession = record {
  connect = connection 9;
  between = connection 10 ∷ [];
  listening = refl;
  registered = refl;
  found = refl;
  accepted = refl;
  client = refl;
  others = (((λ e. omega arith), (λ e. absurd (ground arith))), tt);
  fit = connections-AreFit;
  ran = refl;
  get = line-IsGet;
}

start-Answered_example :
    Answered 9
      (pos 9090)
      line
      []
      (codes "www")
      event
      two_clients
      (path-IsOnDisk (file_path_of (codes "www") (codes "/etc/a")))
unfolding program
start-Answered_example =
    start-Answered (λ n. true) (λ t. true) site [] server worker two_clients (pos 9090) site event
      line [] worker-IsForked line-IsSession
      (path-IsOnDisk (file_path_of (codes "www") (codes "/etc/a")))
