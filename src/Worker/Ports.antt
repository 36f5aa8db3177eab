-- ===== src/Worker/Ports.antt =====
-- The ports that a worker listens on, from the text of the configuration: `parseFile` of
-- Core/mstd/yaml.hpp, `main` and `processWorker` of SOK.cpp.
use sok.Base.{
  nat_keys, ℕ, Bool, true, List, [], ◌∷◌, some, ◌==◌, ◌≡◌, refl, sym, ap, ◌∙◌, arith, length,
  Option-cases, Bool-cases, inl, inr, subst,
}
use sok.Base.Int.{ℤ, int_keys, int_same_iff}
use sok.Base.Map.{lookup}
use sok.Https.Objects
use sok.Base.Text.{Bytes}
use sok.Listen.{bound_port, Answers, Process, setup_server, enter_server, listen_port, listen_ports}
use sok.Listen.Registry.{get_port, lookup-add_fd_port}
use sok.Listen.Serving.{
  Attempt-cases, IsServing, Served, AllServed, AreFresh, AllTaken, listen_ports-IsServing,
}
use sok.Site.{site_info, read_ports}
use sok.Site.Configured.{AreSites, configuration_of, parse_file-Serves, site_info-configuration_of}
use sok.Site.Listening.{contains}
use sok.Site.Roots.{Site, ports_of, site_at, site_at-contains, info_of}
use sok.Yaml.{Fields, ok}
use sok.Yaml.Cursor.{done}
use sok.Yaml.Parse.{parse_file}
use sok.Yaml.Print.{Entry}
use sok.Yaml.Trimming.{unlines}
use sok.Yaml.Written.{print, AreEntries}

-- The registry has ports of the list only.
abbrev Listed : List ℤ → Process → Type 0
Listed from p = (q : ℕ) (port : ℤ) → lookup q p.fd_port ≡ some port → contains port from ≡ true

abbrev pub ports_in : List (ℤ × Answers) → List ℤ
ports_in [] = []
ports_in ((port, a) ∷ ports) = port ∷ ports_in ports

length-ports_in : (ports : List (ℤ × Answers)) → length (ports_in ports) ≡ length ports
length-ports_in [] = refl
length-ports_in (e ∷ ports) = ground (arith, length-ports_in ports)

length-ports_of : (sites : List Site) → length (ports_of sites) ≡ length sites
length-ports_of [] = refl
length-ports_of (s ∷ sites) = ground (arith, length-ports_of sites)

listen_port-Listed :
    (from : List ℤ) (port : ℤ) (a : Answers) (p p' : Process)
    → contains port from ≡ true
    → Listed from p
    → listen_port port a p ≡ some p'
    → Listed from p'
unfolding listen_port enter_server
listen_port-Listed from port a p p' known listed e q port' found =
    elim (Attempt-cases (setup_server port a p.sockets).0) [
      | inl (message, thrown) ↦ absurd (ground arith)
      | inr (fd, went) ↦ ground (arith, lookup-add_fd_port q fd port p.fd_port, listed q port')
    ]

listen_ports-Listed :
    (from : List ℤ) (ports : List (ℤ × Answers)) (p p' : Process)
    → ((port : ℤ) → contains port (ports_in ports) ≡ true → contains port from ≡ true)
    → Listed from p
    → listen_ports ports p ≡ some p'
    → Listed from p'
unfolding listen_ports
listen_ports-Listed from [] p p' known listed e = λ q port found. listed q port (ground arith)
listen_ports-Listed from ((port, a) ∷ ports) p p' known listed e =
    elim (Option-cases (listen_port port a p)) [
      | inl thrown ↦ absurd (ground arith)
      | inr (p₁, stepped) ↦
          listen_ports-Listed from ports p₁ p' (λ port' h. known port' (ground arith))
            (listen_port-Listed from port a p p₁
              (known port (ground (arith, int_same_iff port port))) listed stepped)
            (ground arith)
    ]

-- A configuration that is written in the usual layout; what `main` makes of it; and a worker that
-- has got through the loop over the ports, whose sockets epoll took each.
pub record IsStarted (moves : ℕ → Bool) (stod : Bytes → Bool) (first : Site) (more : List Site)
    (root : Fields) (p : Process) : Type 0 where
  pub above : List Entry
  pub below : List Entry
  pub are_above : AreEntries stod above
  pub are_below : AreEntries stod below
  pub are_sites : AreSites stod (first ∷ more)
  pub parsed :
      parse_file moves stod (some (unlines (print (configuration_of above first more below))))
      ≡ done root
  pub ports : List (ℤ × Answers)
  pub read : read_ports root ≡ ok (ports_in ports)
  pub before : Process
  pub unregistered : before.fd_port ≡ []
  pub unlistened : before.server_fds ≡ []
  pub fresh : AreFresh ports before
  pub taken : AllTaken ports
  pub listened : listen_ports ports before ≡ some p

Served-member :
    (p : Process) (fds : List ℕ) (fd : ℕ)
    → AllServed p fds
    → Objects.contains fd fds ≡ true
    → Served p fd
unfolding Objects.contains
Served-member p [] fd all h = absurd (ground arith)
Served-member p (x ∷ fds) fd (one, rest) h = elim (Bool-cases (x == fd)) [
  | inl here ↦ subst (Served p) ((nat_keys.same_iff x fd).0 here) one
  | inr there ↦ Served-member p fds fd rest (ground arith)
]

module _ (moves : ℕ → Bool) (stod : Bytes → Bool) (first : Site) (more : List Site) (root : Fields)
    (p : Process) (up : IsStarted moves stod first more root p) where
  pub IsStarted-site_info :
      (port : ℤ) (site : Site)
      → site_at port (first ∷ more) ≡ some site
      → site_info port root ≡ ok (info_of port site)
  IsStarted-site_info port site found =
      site_info-configuration_of moves stod up.above up.below first more root port site up.are_above
        up.are_below up.are_sites up.parsed found

  IsStarted-ports : ports_in up.ports ≡ ports_of (first ∷ more)
  IsStarted-ports =
      let (root', parsed', read', _) =
        parse_file-Serves moves stod up.above up.below first more up.are_above up.are_below
          up.are_sites in
      let same : root' ≡ root = ground (arith, parsed', up.parsed) in
      ground (arith, ap read_ports same, read', up.read)

  -- In a worker that has got through the loop there are as many listening sockets as sites in the
  -- configuration. Each is registered with a port of the configuration, bound to the 16
  -- bits that `htons` keeps of it, or to a port that the kernel chose where they are 0, and given the first site that
  -- has the port. (epoll takes each socket, and the kernel gives new descriptors.)
  pub IsStarted-site_at :
      (fd : ℕ)
      → Objects.contains fd p.server_fds ≡ true
      → (port : ℤ) × (chosen : ℕ) × (site : Site) × (lookup fd p.sockets
          ≡ some (some (bound_port port chosen)))
        × (get_port fd p.fd_port ≡ port)
        × (site_at port (first ∷ more) ≡ some site)
        × (site_info port root ≡ ok (info_of port site))
        × (length p.server_fds ≡ length (first ∷ more))
  unfolding get_port
  IsStarted-site_at fd waited =
      let serving_before : IsServing up.before = record {
        served = subst (AllServed up.before) (sym up.unlistened) tt;
        only_open = λ q closed. rw up.unregistered refl;
      } in
      let (serving, count) =
        listen_ports-IsServing up.ports up.before p up.fresh up.taken serving_before up.listened in
      let listed : Listed (ports_of (first ∷ more)) p =
        listen_ports-Listed (ports_of (first ∷ more)) up.ports up.before p
          (λ port h. subst (λ (l : List ℤ). contains port l ≡ true) IsStarted-ports h)
          (λ q port found. absurd (ground (arith, sym (ap (lookup q) up.unregistered) ∙ found)))
          up.listened in
      let (port, chosen, bound, registered) =
        Served-member p p.server_fds fd serving.served waited in
      let (site, found) = site_at-contains port (first ∷ more) (listed fd port registered) in
      (
        port,
        chosen,
        site,
        bound,
        rw (registered, get_port),
        found,
        IsStarted-site_info port site found,
        omega (
          arith,
          count,
          ap length up.unlistened,
          length-ports_in up.ports,
          ap length IsStarted-ports,
          length-ports_of (first ∷ more),
        ),
      )
