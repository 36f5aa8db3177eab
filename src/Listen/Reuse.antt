-- ===== src/Listen/Reuse.antt =====
-- A socket that epoll does not take, in `processWorker` of SOK.cpp.
use sok.Base.{nat_keys, ℕ, true, false, [], ◌∷◌, ◌++◌, none, some, ◌≡◌, arith}
use sok.Base.Int.{ℤ}
use sok.Base.Map.{lookup, insert, lookup-insert_self}
use sok.Listen.{
  Sockets, Answers, started, Process, bound_port, bind_server, configure_server, setup_server,
  enter_server, listen_port, listen_ports,
}
use sok.Listen.Registry.{get_port, lookup-add_fd_port}

-- Every call for a port succeeds, and the kernel gives the descriptor.
pub record Succeeds (a : Answers) (fd : ℕ) : Type 0 where
  pub socket : a.socket ≡ some fd
  pub get_flags : a.get_flags ≡ true
  pub set_flags : a.set_flags ≡ true
  pub reuse_addr : a.reuse_addr ≡ true
  pub reuse_port : a.reuse_port ≡ true
  pub bind : a.bind ≡ true
  pub listen : a.listen ≡ true

setup_server-Succeeds :
    (port : ℤ) (a : Answers) (fd : ℕ) (s : Sockets)
    → Succeeds a fd
    → setup_server port a s
      ≡ (started fd, insert fd (some (bound_port port a.chosen)) (insert fd none s))
unfolding setup_server configure_server bind_server
setup_server-Succeeds port a fd s w =
    ground (arith, w.socket, w.get_flags, w.set_flags, w.reuse_addr, w.reuse_port, w.bind, w.listen)

listen_port-Succeeds :
    (port : ℤ) (a : Answers) (fd : ℕ) (p : Process)
    → Succeeds a fd
    → listen_port port a p
      ≡ some (
          enter_server port a fd (record p {
            sockets = insert fd (some (bound_port port a.chosen)) (insert fd none p.sockets);
          }))
unfolding listen_port
listen_port-Succeeds port a fd p w = ground (arith, setup_server-Succeeds port a fd p.sockets w)

-- A socket that epoll does not take is closed, and its entry stays in the registry: where the next
-- port's socket has the same descriptor, it is bound to the 16 bits of that port, or to a port that the
-- kernel chose where they are 0, and the process serves it as the first port's.
pub listen_ports_reused :
    (port port' : ℤ) (a a' : Answers) (fd : ℕ) (p : Process)
    → Succeeds a fd
    → Succeeds a' fd
    → a.epoll_add ≡ false
    → a'.epoll_add ≡ true
    → lookup fd p.fd_port ≡ none
    → (p' : Process) × (listen_ports ((port, a) ∷ (port', a') ∷ []) p ≡ some p')
      × (lookup fd p'.sockets ≡ some (some (bound_port port' a'.chosen)))
      × (get_port fd p'.fd_port ≡ port)
      × (p'.server_fds ≡ p.server_fds ++ fd ∷ [])
unfolding listen_ports enter_server get_port
listen_ports_reused port port' a a' fd p w w' refused taken unknown =
    let s = insert fd (some (bound_port port a.chosen)) (insert fd none p.sockets) in
    let p₁ = enter_server port a fd (record p { sockets = s }) in
    let s₁ = insert fd (some (bound_port port' a'.chosen)) (insert fd none p₁.sockets) in
    let p₂ = enter_server port' a' fd (record p₁ { sockets = s₁ }) in
    (
      p₂,
      rw (listen_port-Succeeds port a fd p w, listen_ports, listen_port-Succeeds port' a' fd p₁ w'),
      ground (
        arith,
        refused,
        taken,
        unknown,
        lookup-insert_self fd (some (bound_port port' a'.chosen)) (insert fd none p₁.sockets),
      ),
      ground (
        arith,
        refused,
        taken,
        unknown,
        lookup-add_fd_port fd fd port p.fd_port,
        lookup-add_fd_port fd fd port' p₁.fd_port,
        nat_keys.same_iff fd fd,
      ),
      ground (arith, refused, taken),
    )
