-- ===== src/Main/Restart.antt =====
-- The command `restart` of `main` in SOK.cpp with another configuration: new workers wait on the ports
-- that were read at the start.
use sok.Base.{
  nat_keys, ℕ, zero, suc, Option, Bool, true, false, List, [], ◌∷◌, Option, none, some, ◌≡◌, ◌≢◌,
  refl, arith, ap, ◌∙◌, sym, inl, inr, subst,
}
use sok.Base.Int.{ℤ, int_keys}
use sok.Base.Map.{lookup}
use sok.Base.Text.{Bytes, bytes_keys, bytes_same_iff, codes, is_empty}
use sok.Children.{Life, terminate_all, monitor_children}
use sok.FileCache.Invariant.{IsValid}
use sok.Http.Request.{RequestLine, file_path_of}
use sok.Https.Objects
use sok.Main.{
  Child, Server, Happening, interrupted, signalled, child_ended, happen, goes_on, Round, obey,
  round, restart, load, loaded, fork_workers, fork_worker, happen_all,
}
use sok.Main.Forked.{IsWell}
use sok.Main.Rounds.{Leaves, round-Leaves}
use sok.Site.{SiteInfo, find_site, site_info, server_ports, read_ports}
use sok.Site.Listening.{contains}
use sok.Worker.{Worker, Event}
use sok.Worker.Requests.{IsGet, IsOnDisk, dispatch_protocol-get, handle_http-file}
use sok.Worker.Serving.{Answered, handle_event-Answered}
use sok.Yaml.{Fields, Result-cases, ok, get_array, get_int}
use sok.Yaml.Cursor.{done}
use sok.Yaml.Parse.{parse_file}

-- A port that no server of the configuration has.
find_site-missing :
    (p : ℤ) (site : SiteInfo) (servers : List Fields) (ports : List ℤ)
    → server_ports servers ≡ ok ports
    → contains p ports ≡ false
    → find_site p site servers ≡ ok site
unfolding find_site server_ports
find_site-missing p site [] ports e h = refl
find_site-missing p site (server ∷ servers) ports e h =
    elim (Result-cases (get_int server (codes "port"))) [
      | inr (bad, thrown) ↦ absurd (ground arith)
      | inl (q, port) ↦ elim (Result-cases (server_ports servers)) [
        | inr (bad, thrown) ↦ absurd (ground arith)
        | inl (qs, later) ↦
            let listed : (q ∷ qs) ≡ ports = ground arith in
            let rest = find_site-missing p site servers qs later (ground arith) in ground arith
      ]
    ]

-- What `SiteInfo` is if no server has the port.
abbrev no_site : Fields → SiteInfo
no_site root = record { name = []; root_dir = []; port = none; site_config = root }

site_info-missing :
    (p : ℤ) (root : Fields) (ports : List ℤ)
    → read_ports root ≡ ok ports
    → contains p ports ≡ false
    → site_info p root ≡ ok (no_site root)
unfolding site_info read_ports
site_info-missing p root ports read h = elim (Result-cases (get_array root (codes "servers"))) [
  | inr (bad, thrown) ↦ absurd (ground arith)
  | inl (servers, array) ↦
      rw (array, site_info) (find_site-missing p (no_site root) servers ports (ground arith) h)
]

file_path_of_rootless :
    (path : Bytes) → is_empty path ≡ false → path ≢ codes "/" → file_path_of [] path ≡ path
unfolding file_path_of
file_path_of_rootless [] some_path no_root = absurd (ground arith)
file_path_of_rootless (c ∷ path) some_path no_root =
    ground (arith, bytes_same_iff (c ∷ path) (codes "/"))

happen_all-ports : (hs : List Happening) (s : Server) → (happen_all hs s).ports ≡ s.ports
unfolding happen
happen_all-ports [] s = refl
happen_all-ports (interrupted ∷ hs) s = happen_all-ports hs (happen interrupted s)
happen_all-ports (signalled ∷ hs) s = happen_all-ports hs (happen signalled s)
happen_all-ports (child_ended pid ∷ hs) s = happen_all-ports hs (happen (child_ended pid) s)

fork_worker-settings :
    (forked : Option ℕ) (s : Server)
    → ((fork_worker forked s).config ≡ s.config) × ((fork_worker forked s).ports ≡ s.ports)
unfolding fork_worker
fork_worker-settings none s = (refl, refl)
fork_worker-settings (some pid) s = (refl, refl)

pub fork_workers-settings :
    (n : ℕ) (forks : ℕ → Option ℕ) (s : Server)
    → ((fork_workers n forks s).config ≡ s.config) × ((fork_workers n forks s).ports ≡ s.ports)
unfolding fork_workers
fork_workers-settings zero forks s = (refl, refl)
fork_workers-settings (suc n) forks s =
    let (config, ports) = fork_workers-settings n (λ i. forks (suc i)) (fork_worker (forks 0) s) in
    let (config', ports') = fork_worker-settings (forks 0) s in (config ∙ config', ports ∙ ports')

-- The new workers get the new configuration and the old ports.
round_restart :
    (moves : ℕ → Bool) (stod : Bytes → Bool) (r : Round) (s : Server) (root : Fields)
    → r.input ≡ some (codes "restart")
    → parse_file moves stod r.file ≡ done root
    → (s' : Server) × (round moves stod r s ≡ goes_on s')
      × (s'.config ≡ root)
      × (s'.ports ≡ s.ports)
unfolding round obey restart load loaded
round_restart moves stod r s root restarts parsed =
    let t = happen_all r.meanwhile s in
    let u : Server = record t { manager = terminate_all t.manager; config = root } in
    let v = fork_workers u.cpu_cores r.forks u in
    let (config, ports) = fork_workers-settings u.cpu_cores r.forks u in
    (
      record v { manager = monitor_children v.manager },
      rw (restarts, parsed) refl,
      config,
      ports ∙ happen_all-ports r.meanwhile s,
    )

-- A connection that a worker has on a port.
pub record IsClient (fd : ℕ) (port : ℤ) (w : Worker) : Type 0 where
  pub client : Objects.contains fd w.server_fds ≡ false
  pub known : lookup fd w.client_map_port ≡ some port
  pub valid : IsValid w.handlers.http_cache

-- After `restart` with a configuration that no longer has a port, each child has been given the new
-- configuration and that port all the same, and on a connection of the port its worker answers a GET
-- request for a path with the file of the machine that has this path, wherever it is: no site is
-- found, and the root is the empty text. (The request is well formed and comes in one piece, the path
-- is not `/`, the cache does not hold the file, every write takes something, and sizes fit in
-- `size_t`.)
pub round-Answered :
    (moves : ℕ → Bool) (stod : Bytes → Bool) (r : Round) (s s' : Server) (root : Fields)
    (ports : List ℤ) (port : ℤ) (pid : ℕ) (life : Life) (child : Child) (w : Worker) (e : Event)
    (l : RequestLine) (fields : List (Bytes × Bytes))
    → IsWell s
    → r.input ≡ some (codes "restart")
    → parse_file moves stod r.file ≡ done root
    → read_ports root ≡ ok ports
    → contains port s.ports ≡ true
    → contains port ports ≡ false
    → round moves stod r s ≡ goes_on s'
    → lookup pid s'.manager.children ≡ some life
    → lookup pid s'.forked ≡ some child
    → w.config ≡ child.config
    → IsClient e.fd port w
    → IsGet l fields e.client
    → l.path ≢ codes "/"
    → (there : IsOnDisk (file_path_of [] l.path) e.disk e.client w.handlers.http_cache)
    → (child.config ≡ root)
      × (contains port child.ports ≡ true)
      × (file_path_of [] l.path ≡ l.path)
      × Answered e.fd port l fields [] e w there
round-Answered moves stod r s s' root ports port pid life child w e l fields well restarts parsed
      read before missing went there given given' client get no_root on_disk =
    let (t, went', config, kept) = round_restart moves stod r s root restarts parsed in
    let same : t ≡ s' = ground arith in
    let left : IsWell s' = subst Leaves went (round-Leaves moves stod r s well) in
    let fresh : child ≡ record { config = s'.config; ports = s'.ports } =
      ground (arith, left.current pid life there) in
    let new : child.config ≡ root =
      ap (λ (c : Child). c.config) fresh ∙ ap (λ (u : Server). u.config) (sym same) ∙ config in
    let old : child.ports ≡ s.ports =
      ap (λ (c : Child). c.ports) fresh ∙ ap (λ (u : Server). u.ports) (sym same) ∙ kept in
    let found : site_info port w.config ≡ ok (no_site root) =
      ap (site_info port) (given' ∙ new) ∙ site_info-missing port root ports read missing in
    let (h, ran, served) =
      handle_http-file [] e.disk e.client w.handlers.http_cache l fields client.valid get on_disk in
    (
      new,
      ap (contains port) old ∙ before,
      file_path_of_rootless l.path get.line.path.1 no_root,
      handle_event-Answered e w port [] l fields on_disk h ran served
          (dispatch_protocol-get w.config port e.disk e.client w.handlers (no_site root) l fields
            found get)
          client.client client.known,
    )
