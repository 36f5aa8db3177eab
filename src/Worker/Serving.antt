-- ===== src/Worker/Serving.antt =====
-- From a configuration to the file that a client gets: a worker that listens, a connection, what
-- other connections do meanwhile, and a request.
use sok.Base.{
  nat_keys, ℕ, Bool, true, false, List, [], ◌∷◌, none, some, if◌then◌else◌, ◌≡◌, ap, ◌∙◌, arith,
}
use sok.Base.Int.{ℤ}
use sok.Base.Map.{lookup, lookup-erase_self}
use sok.Base.Text.{Bytes}
use sok.Dispatcher.{dispatch_protocol, run_http}
use sok.Http.{Handled, handle_http}
use sok.Http.Headers.{insert_all}
use sok.Http.Request.{RequestLine, wants_keep_alive, file_path_of}
use sok.Https.Objects.{contains}
use sok.Listen.{Process}
use sok.Listen.Registry.{get_port}
use sok.Site.{site_info}
use sok.Site.Roots.{Site, site_at, info_of}
use sok.Worker.{Worker, Event, drop_client, serve, handle_event, run}
use sok.Worker.Objects.{AreFit, IsUp, run-IsUp}
use sok.Worker.Ports.{IsStarted, IsStarted-site_info}
use sok.Worker.Requests.{IsGet, IsOnDisk, IsServed, dispatch_protocol-get, handle_http-file}
use sok.Worker.Steady.{AreOther, run-connect}
use sok.Yaml.{Fields, ok, unquote}

-- The worker runs with this configuration and waits on the sockets of this process.
pub record RunsWith (root : Fields) (p : Process) (w : Worker) : Type 0 where
  pub config : w.config ≡ root
  pub fd_port : w.fd_port ≡ p.fd_port
  pub server_fds : w.server_fds ≡ p.server_fds

-- The handler's answer, the worker after it, and the connection: kept with its port if the client
-- asked for that, and else gone.
pub record Answered (fd : ℕ) (port : ℤ) (l : RequestLine) (fields : List (Bytes × Bytes))
    (root_dir : Bytes) (e : Event) (w : Worker)
    (there : IsOnDisk (file_path_of root_dir l.path) e.disk e.client w.handlers.http_cache)
    : Type 0 where
  pub handled : Handled
  pub after : Worker
  pub ran : handle_http root_dir e.disk e.client.plain w.handlers.http_cache ≡ some handled
  pub served :
      IsServed
        (file_path_of root_dir l.path)
        l
        fields
        e.disk
        w.handlers.http_cache
        there.first
        there.file
        handled
  pub stepped : handle_event e w ≡ some after
  pub cache : after.handlers.http_cache ≡ handled.cache
  pub connection :
      lookup fd after.client_map_port
      ≡ (if wants_keep_alive (insert_all fields []) then some port else none)

module _ (e : Event) (w : Worker) (port : ℤ) (root_dir : Bytes) (l : RequestLine)
    (fields : List (Bytes × Bytes))
    (there : IsOnDisk (file_path_of root_dir l.path) e.disk e.client w.handlers.http_cache)
    (h : Handled) (ran : handle_http root_dir e.disk e.client.plain w.handlers.http_cache ≡ some h)
    (served : IsServed
      (file_path_of root_dir l.path)
      l
      fields
      e.disk
      w.handlers.http_cache
      there.first
      there.file
      h)
    (dispatched : dispatch_protocol w.config port e.disk e.client w.handlers
      ≡ run_http root_dir e.disk e.client w.handlers)
    (client : contains e.fd w.server_fds ≡ false)
    (known : lookup e.fd w.client_map_port ≡ some port) where
  pub handle_event-Answered : Answered e.fd port l fields root_dir e w there
  unfolding handle_event serve run_http drop_client
  handle_event-Answered =
      let keep = wants_keep_alive (insert_all fields []) in
      let handlers = record w.handlers { http_cache = h.cache } in
      let w₁ = record w { handlers = handlers } in
      let w₂ = if keep then w₁ else drop_client e.fd w₁ in
      let dispatch : dispatch_protocol w.config port e.disk e.client w.handlers
          ≡ some (h.keep_alive, handlers) =
        dispatched ∙ rw (ran, run_http) in
      let dropped : serve port e w ≡ some (if h.keep_alive then w₁ else drop_client e.fd w₁) =
        rw (dispatch, serve) in
      record {
        handled = h;
        after = w₂;
        ran = ran;
        served = served;
        stepped =
            rw (client, handle_event, known)
              (dropped ∙ ap (λ b. some (if b then w₁ else drop_client e.fd w₁)) served.keeps);
        cache = ground arith;
        connection = ground (arith, lookup-erase_self e.fd w.client_map_port);
      }

-- A worker that listens as a written configuration says serves the files of its sites: a client
-- connects to a socket that is registered with a port, other connections come, send and go in
-- between, and then a well formed GET request that the client sends in one piece for a file that the
-- cache does not hold is answered with what the first write took of the head and the whole file. Its
-- path is that of `file_path_of`: the root of the first site of the configuration with that port,
-- with the request's path appended as it is, also with `..` in it, or with `/index.html`. The call returns; the connection is kept with
-- its port if the request asks for that, and is gone otherwise. (epoll takes each listening socket,
-- the kernel gives new descriptors, every write takes something, and sizes fit in `size_t`.)
pub run-IsServed :
    (moves : ℕ → Bool) (stod : Bytes → Bool) (first : Site) (more : List Site) (root : Fields)
    (p : Process) (w w' : Worker) (port : ℤ) (site : Site) (connect request : Event)
    (between : List Event) (l : RequestLine) (fields : List (Bytes × Bytes))
    → IsStarted moves stod first more root p
    → RunsWith root p w
    → IsUp w
    → contains connect.fd p.server_fds ≡ true
    → get_port connect.fd p.fd_port ≡ port
    → site_at port (first ∷ more) ≡ some site
    → connect.accepted ≡ some request.fd
    → contains request.fd p.server_fds ≡ false
    → AreOther request.fd between
    → AreFit (connect ∷ between) w
    → run (connect ∷ between) w ≡ some w'
    → IsGet l fields request.client
    → (there : IsOnDisk
        (file_path_of (unquote site.root_dir) l.path)
        request.disk
        request.client
        w'.handlers.http_cache)
    → Answered request.fd port l fields (unquote site.root_dir) request w' there
run-IsServed moves stod first more root p w w' port site connect request between l fields up runs
      valid listening registered found accepted client others fit ran get there =
    let (steady, known) =
      run-connect request.fd connect between w w' (rw runs.server_fds listening) accepted others
        ran in
    let (h, handled, served) =
      handle_http-file (unquote site.root_dir) request.disk request.client w'.handlers.http_cache l
        fields (run-IsUp (connect ∷ between) w w' fit valid ran).http_valid get there in
    let site_found : site_info port w'.config ≡ ok (info_of port site) =
      ap (site_info port) (steady.config ∙ runs.config)
      ∙ IsStarted-site_info moves stod first more root p up port site found in
    let known' : lookup request.fd w'.client_map_port ≡ some port =
      known ∙ ap some (ap (get_port connect.fd) runs.fd_port ∙ registered) in
    handle_event-Answered request w' port (unquote site.root_dir) l fields there h handled served
      (dispatch_protocol-get w'.config port request.disk request.client w'.handlers
        (info_of port site) l fields site_found get)
      (rw (steady.server_fds ∙ runs.server_fds) client) known'
