-- ===== src/Main/Serving.antt =====
-- From the file that `main` of SOK.cpp reads to a worker that serves: `main`, `fork`, `processWorker`.
use sok.Base.{
  nat_keys, ℕ, Bool, true, false, List, [], ◌∷◌, Option, some, ◌≡◌, refl, sym, ap, ◌∙◌, subst,
  arith, inl, inr,
}
use sok.Base.Int.{ℤ}
use sok.Base.Map.{lookup}
use sok.Base.Text.{Bytes, codes}
use sok.Children.{Life}
use sok.Http.Request.{RequestLine, file_path_of}
use sok.Https.Objects.{contains}
use sok.Listen.{Answers, Process}
use sok.Listen.Registry.{get_port}
use sok.Listen.Serving.{AreFresh, AllTaken}
use sok.Main.{
  Child, Server, goes_on, uncaught, fork_workers, cores_of, loaded, load, settings, enter_settings,
  enter_ports, empty, start,
}
use sok.Main.Forked.{IsWell}
use sok.Main.Restart.{fork_workers-settings}
use sok.Main.Rounds.{Leaves, start-Leaves}
use sok.Site.{read_ports}
use sok.Site.Configured.{AreSites, configuration_of, parse_file-Serves}
use sok.Site.Roots.{Site, site_at}
use sok.Worker.{Worker, Event, run}
use sok.Worker.Objects.{IsUp, AreFit}
use sok.Worker.Ports.{IsStarted, ports_in}
use sok.Worker.Requests.{IsGet, IsOnDisk}
use sok.Worker.Serving.{RunsWith, Answered, run-IsServed}
use sok.Worker.Steady.{AreOther}
use sok.Worker.Start.{SslAnswers, runs, process_worker, process_worker-RunsWith}
use sok.Yaml.{Fields, Result-cases, ok, get_int, unquote}
use sok.Yaml.Cursor.{done}
use sok.Yaml.Print.{Entry}
use sok.Yaml.Trimming.{unlines}
use sok.Yaml.Written.{print, AreEntries}

goes_on_inj : {s t : Server} → goes_on s ≡ goes_on t → s ≡ t
goes_on_inj e = cc

-- What the start takes over from a configuration whose ports can be read.
enter_settings-goes_on :
    (root : Fields) (port : ℤ) (ports : List ℤ) (hardware : ℕ) (forks : ℕ → Option ℕ)
    (before s : Server)
    → read_ports root ≡ ok (port ∷ ports)
    → enter_settings (settings root) hardware forks before ≡ goes_on s
    → (s.config ≡ before.config) × (s.ports ≡ port ∷ ports)
unfolding enter_settings settings enter_ports
enter_settings-goes_on root port ports hardware forks before s read went =
    elim (Result-cases (get_int root (codes "cpu_cores"))) [
      | inr (bad, thrown) ↦
          let failed : enter_settings (settings root) hardware forks before
              ≡ uncaught before.manager =
            rw (read, thrown) refl in
          absurd cc
      | inl (n, found) ↦
          let given : Server = record before {
            ports = port ∷ ports;
            cpu_cores = cores_of n hardware;
          } in
          let (config, kept) = fork_workers-settings (cores_of n hardware) forks given in
          let same : fork_workers (cores_of n hardware) forks given ≡ s =
            goes_on_inj (sym (rw (read, found) refl) ∙ went) in
          (
            ap (λ (t : Server). t.config) (sym same) ∙ config,
            ap (λ (t : Server). t.ports) (sym same) ∙ kept,
          )
    ]

-- A written configuration, the start of `main` with it, and a worker process that `main` has forked
-- and that has got to its event loop, with a thread in its pool and sockets that epoll took each.
pub record IsForked (moves : ℕ → Bool) (stod : Bytes → Bool) (first : Site) (more : List Site)
    (s : Server) (w : Worker) : Type 0 where
  pub above : List Entry
  pub below : List Entry
  pub are_above : AreEntries stod above
  pub are_below : AreEntries stod below
  pub are_sites : AreSites stod (first ∷ more)
  pub hardware : ℕ
  pub forks : ℕ → Option ℕ
  pub started :
      start moves stod
        (some (unlines (print (configuration_of above first more below))))
        hardware
        forks
      ≡ goes_on s
  pub pid : ℕ
  pub life : Life
  pub there : lookup pid s.manager.children ≡ some life
  pub child : Child
  pub given : lookup pid s.forked ≡ some child
  pub epoll : Bool
  pub ssl : SslAnswers
  pub available : ℕ
  pub ports : List (ℤ × Answers)
  pub ports_given : ports_in ports ≡ child.ports
  pub before : Process
  pub unregistered : before.fd_port ≡ []
  pub unlistened : before.server_fds ≡ []
  pub fresh : AreFresh ports before
  pub taken : AllTaken ports
  pub entered : process_worker child.config epoll ssl available ports before ≡ runs w

IsForked-IsStarted :
    (moves : ℕ → Bool) (stod : Bytes → Bool) (first : Site) (more : List Site) (s : Server)
    (w : Worker)
    → IsForked moves stod first more s w
    → (p : Process) × IsStarted moves stod first more s.config p
      × RunsWith s.config p w
      × IsUp w
      × (w.client_map_port ≡ [])
unfolding start load loaded
IsForked-IsStarted moves stod first more s w f =
    let (root, parsed, read, _) =
      parse_file-Serves moves stod f.above f.below first more f.are_above f.are_below f.are_sites in
    let entered : enter_settings (settings root) f.hardware f.forks (record empty { config = root })
        ≡ goes_on s =
      sym (rw parsed refl) ∙ f.started in
    let (config, ports) = enter_settings-goes_on root _ _ f.hardware f.forks _ s read entered in
    let well : IsWell s = subst Leaves f.started (start-Leaves moves stod _ f.hardware f.forks) in
    let fresh : f.child ≡ record { config = s.config; ports = s.ports } =
      ground (arith, well.current f.pid f.life f.there, f.given) in
    let same : f.child.config ≡ s.config = ap (λ (c : Child). c.config) fresh in
    let (_, p, listened, runs_with, up, none', _) =
      process_worker-RunsWith f.child.config f.epoll f.ssl f.available f.ports f.before w
        f.entered in
    (
      p,
      record {
        above = f.above;
        below = f.below;
        are_above = f.are_above;
        are_below = f.are_below;
        are_sites = f.are_sites;
        parsed = parsed ∙ ap done (sym config);
        ports = f.ports;
        read =
            ap read_ports config
            ∙ read
            ∙ ap ok (sym (f.ports_given ∙ ap (λ (c : Child). c.ports) fresh ∙ ports));
        before = f.before;
        unregistered = f.unregistered;
        unlistened = f.unlistened;
        fresh = f.fresh;
        taken = f.taken;
        listened = listened;
      },
      subst (λ (c : Fields). RunsWith c p w) same runs_with,
      up,
      none',
    )

-- A client connects to a socket that the worker waits on; other connections come, send and go; and
-- then the client sends a request.
pub record IsSession (first : Site) (more : List Site) (w w' : Worker) (port : ℤ) (site : Site)
    (request : Event) (l : RequestLine) (fields : List (Bytes × Bytes)) : Type 0 where
  pub connect : Event
  pub between : List Event
  pub listening : contains connect.fd w.server_fds ≡ true
  pub registered : get_port connect.fd w.fd_port ≡ port
  pub found : site_at port (first ∷ more) ≡ some site
  pub accepted : connect.accepted ≡ some request.fd
  pub client : contains request.fd w.server_fds ≡ false
  pub others : AreOther request.fd between
  pub fit : AreFit (connect ∷ between) w
  pub ran : run (connect ∷ between) w ≡ some w'
  pub get : IsGet l fields request.client

-- From start to answer: `main` starts with a written configuration and forks, the child gets to its
-- event loop with a thread in its pool, and a client connects to a socket there that is registered
-- with a port. Whatever other connections do in between, a well formed GET request that the client
-- sends in one piece for a file that the cache does not hold is answered with what the first write
-- took of the head and the whole file. Its path is that of `file_path_of`: the root of the first site
-- of the configuration that has the port, with the request's path appended as it is, also with `..`
-- in it, or with `/index.html`. The call returns; the connection is kept with its port if the request
-- asks for that, and is gone otherwise. (epoll takes each listening socket, the kernel gives new
-- descriptors, the threads that are asked for can be made, every write takes something, and sizes fit
-- in `size_t`.)
pub start-Answered :
    (moves : ℕ → Bool) (stod : Bytes → Bool) (first : Site) (more : List Site) (s : Server)
    (w w' : Worker) (port : ℤ) (site : Site) (request : Event) (l : RequestLine)
    (fields : List (Bytes × Bytes))
    → IsForked moves stod first more s w
    → IsSession first more w w' port site request l fields
    → (there : IsOnDisk
        (file_path_of (unquote site.root_dir) l.path)
        request.disk
        request.client
        w'.handlers.http_cache)
    → Answered request.fd port l fields (unquote site.root_dir) request w' there
start-Answered moves stod first more s w w' port site request l fields f c there =
    let (p, up, runs_with, valid, _) = IsForked-IsStarted moves stod first more s w f in
    let listening : contains c.connect.fd p.server_fds ≡ true =
      ap (contains c.connect.fd) (sym runs_with.server_fds) ∙ c.listening in
    let registered : get_port c.connect.fd p.fd_port ≡ port =
      ap (get_port c.connect.fd) (sym runs_with.fd_port) ∙ c.registered in
    run-IsServed moves stod first more s.config p w w' port site c.connect request c.between l
      fields up runs_with valid listening registered c.found c.accepted
      (ap (contains request.fd) (sym runs_with.server_fds) ∙ c.client) c.others c.fit c.ran c.get
      there
