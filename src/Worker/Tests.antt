-- ===== src/Worker/Tests.antt =====
-- A worker of Core/mstd/EpollManager.hpp with one site, two connections and a request.
use sok.Base.{
  nat_keys, ℕ, true, false, List, [], ◌∷◌, Option, none, some, ◌≡◌, refl, arith, take, length,
}
use sok.Base.Int.{ℤ, pos, negsuc}
use sok.Base.Map.{lookup}
use sok.Base.Text.{Bytes, codes}
use sok.Dispatcher.{Client, Handlers}
use sok.FileCache
use sok.FileCache.{
  CachedFile, FileView, get_file_size, get_file_last_write_time, load_file, read_into,
}
use sok.FileCache.Refine.{init-IsValid}
use sok.Http.Parse.{print_request}
use sok.Http.Request.{RequestLine, no_data, file_path_of}
use sok.Http.Scan.{is_space}
use sok.Http.Send.{wrote}
use sok.Https
use sok.Https.Objects.{contains}
use sok.Listen.{
  Answers, Process, htons, bound_port, listen_ports, listen_port, setup_server, configure_server,
  bind_server, enter_server,
}
use sok.Listen.Registry.{get_port, add_fd_port}
use sok.Site.{site_info}
use sok.Site.Configured.{AreSites, parse_file-Serves}
use sok.Site.Roots.{Site, site_at, info_of}
use sok.Worker.{Worker, Event, handle_event, accept_client}
use sok.Worker.Objects.{AreFit, IsUp, run-BelongTo}
use sok.Worker.Ports.{IsStarted, IsStarted-site_at}
use sok.Worker.Start.{enter_loop, make_threads, wait_for_events, size_t_of, starves, exits}
use sok.Yaml.{Fields, ok, unquote}
use sok.Yaml.Cursor.{scalar, inner}
use sok.Yaml.Lines.{trim_back, is_white}

program : Unit {0}
unfolding htons bound_port handle_event accept_client contains get_port listen_ports listen_port
    setup_server configure_server bind_server enter_server add_fd_port print_request file_path_of
    load_file read_into get_file_size get_file_last_write_time trim_back is_white is_space scalar
    inner unquote FileCache.init
program = tt

abbrev site : Site
site = record { name = codes "one"; port = 8080; root_dir = codes "www" }

site_is_written : AreSites (λ t. true) (site ∷ [])
unfolding program
site_is_written = (
  record {
    name_trimmed = record { front = refl; back = refl };
    name_line = omega arith;
    port_fits = omega arith;
    root_trimmed = record { front = refl; back = refl };
    root_line = omega arith;
    root_no_list = refl;
    root_text = refl;
  },
  tt,
)

-- What is read of the configuration.
abbrev config : Fields
config = (parse_file-Serves (λ n. true) (λ t. true) [] [] site [] tt tt site_is_written).0

abbrev all_well : Answers
all_well = record {
  socket = some 4;
  get_flags = true;
  set_flags = true;
  reuse_addr = true;
  reuse_port = true;
  bind = true;
  listen = true;
  epoll_add = true;
  chosen = 0;
}

abbrev nothing_open : Process
nothing_open = record { sockets = (3, none) ∷ []; fd_port = []; server_fds = [] }

abbrev process : Process
process = record {
  sockets = (3, none) ∷ (4, some 8080) ∷ [];
  fd_port = (4, pos 8080) ∷ [];
  server_fds = 4 ∷ [];
}

process-IsStarted : IsStarted (λ n. true) (λ t. true) site [] config process
unfolding program
process-IsStarted = record {
  above = [];
  below = [];
  are_above = tt;
  are_below = tt;
  are_sites = site_is_written;
  parsed = (parse_file-Serves (λ n. true) (λ t. true) [] [] site [] tt tt site_is_written).1;
  ports = (pos 8080, all_well) ∷ [];
  read = (parse_file-Serves (λ n. true) (λ t. true) [] [] site [] tt tt site_is_written).2;
  before = nothing_open;
  unregistered = refl;
  unlistened = refl;
  fresh = ((λ fd e. ground arith), (λ p' e. tt));
  taken = (refl, tt);
  listened = refl;
}

IsStarted-site_at_example :
    (port : ℤ) × (chosen : ℕ) × (found : Site) × (lookup 4 process.sockets
      ≡ some (some (bound_port port chosen)))
    × (get_port 4 process.fd_port ≡ port)
    × (site_at port (site ∷ []) ≡ some found)
    × (site_info port config ≡ ok (info_of port found))
    × (length process.server_fds ≡ length (site ∷ []))
unfolding contains
IsStarted-site_at_example =
    IsStarted-site_at (λ n. true) (λ t. true) site [] config process process-IsStarted 4 refl

abbrev stat : FileCache.Stat
stat = record { mtime = pos 7; size = 5 }

abbrev disk : Bytes → FileView
disk path = record {
  checked = some stat;
  is_open = true;
  sized = some stat;
  readable = codes "hello";
  stamped = some stat;
}

abbrev line : RequestLine
line = record { method = codes "GET"; path = codes "/a.txt"; version = codes "HTTP/1.1" }

abbrev client : ℕ → Client
client fd = record {
  peeked = take 16 (print_request line [] []);
  plain = record {
    incoming = record { chunks = print_request line [] [] ∷ []; ending = no_data };
    answers = wrote 500 ∷ wrote 2 ∷ wrote 9 ∷ wrote 1 ∷ wrote 1 ∷ wrote 1 ∷ [];
    opened = some (codes "hello");
  };
  secure = record {
    client_fd = fd;
    peeked = none;
    handshake = Https.done;
    incoming = record { chunks = []; ending = no_data };
    answers = [];
    mapped = none;
  };
}

abbrev event : ℕ → Option ℕ → Event
event fd accepted = record { fd = fd; accepted = accepted; client = client fd; disk = disk }

abbrev handlers : Handlers
handlers = record {
  http_cache = FileCache.init 50;
  https_cache = FileCache.init 50;
  tls = record { ssl_map = []; live = []; next = 0; double_free = false };
}

abbrev worker : Worker
worker = record {
  config = config;
  fd_port = (4, pos 8080) ∷ [];
  server_fds = 4 ∷ [];
  client_map_port = [];
  handlers = handlers;
}

worker-IsUp : IsUp worker
unfolding program
worker-IsUp = record {
  http_valid = init-IsValid 50;
  https_valid = init-IsValid 50;
  kept = record {
    owned = record {
      entries = λ fd ssl e. cc;
      apart = λ fd fd' ssl e e'. cc;
      no_leak = λ ssl e. absurd (ground arith);
      fresh = λ ssl e. absurd (ground arith);
      freed_once = refl;
    };
    known = λ q ssl e. cc;
  };
}

abbrev two_clients : Worker
two_clients = record worker { client_map_port = (9, pos 8080) ∷ (10, pos 8080) ∷ [] }

abbrev connections : List Event
connections = event 4 (some 9) ∷ event 4 (some 10) ∷ []

connections-AreFit : AreFit connections worker
unfolding program
connections-AreFit = (
  (refl, (λ p. omega arith), (λ p. omega arith)),
  λ w' e.
      let plain : 50 ≡ w'.handlers.http_cache.max_size = ground arith in
      let secure : 50 ≡ w'.handlers.https_cache.max_size = ground arith in
      ((refl, (λ p. omega (arith, plain)), (λ p. omega (arith, secure))), λ w'' e'. tt),
)

-- Two connections come, and none has an object.
run-BelongTo_example :
    IsUp two_clients
    × ((ssl : ℕ)
        → contains ssl [] ≡ true
        → (fd : ℕ) × (port : ℤ) × (lookup fd two_clients.client_map_port ≡ some port)
          × (lookup fd two_clients.handlers.tls.ssl_map ≡ some ssl)
          × ((fd' : ℕ) → lookup fd' two_clients.handlers.tls.ssl_map ≡ some ssl → fd ≡ fd'))
    × (two_clients.client_map_port ≡ [] → (ssl : ℕ) → contains ssl [] ≡ false)
unfolding program
run-BelongTo_example =
    run-BelongTo connections worker two_clients connections-AreFit worker-IsUp refl

-- The pool without a thread.
no_threads : (w : Worker) → enter_loop 8 (ok (pos 16)) (ok (pos 0)) w ≡ starves w
unfolding enter_loop make_threads wait_for_events size_t_of
no_threads w = refl

too_many_threads : (w : Worker) → enter_loop 8 (ok (pos 16)) (ok (negsuc 0)) w ≡ exits
unfolding enter_loop make_threads wait_for_events size_t_of
too_many_threads w = refl
