-- ===== src/Listen.antt =====
-- The sockets that a process listens on: Core/utils/SocketUtils.hpp, and the loop over the ports in
-- `processWorker` of SOK.cpp. The kernel's answers are arguments.
pub mod Registry
pub mod Serving
pub mod Reuse
mod Tests
use sok.Base.{
  nat_keys, ℕ, suc, ◌-◌, ◌%◌, ◌^◌, ◌==◌, Bool, ◌&&◌, List, [], ◌∷◌, ◌++◌, Option, none, some,
  if◌then◌else◌,
}
use sok.Base.Int.{ℤ, pos, negsuc}
use sok.Base.Map.{Map, lookup, insert, erase}
use sok.Base.Text.{Bytes, codes}
use sok.Listen.Registry.{FdPortRegistry, add_fd_port}

-- The descriptors that are open, each with the port that it is bound to, if it is.
abbrev pub Sockets : Type 0
Sockets = Map ℕ (Option ℕ)

-- `htons` takes 16 bits of an `int`.
unfoldable pub htons : ℤ → ℕ
htons (pos n) = n % 2 ^ 16
htons (negsuc n) = 2 ^ 16 - suc (n % 2 ^ 16)

-- The port that `bind` takes: for 0 the kernel chooses one.
unfoldable pub bound_port : ℤ → ℕ → ℕ
unfolding htons
bound_port port chosen = let sin_port = htons port in if sin_port == 0 then chosen else sin_port

-- What the calls for one port answer: the descriptor of `socket`, whether the others succeed, and
-- the port that the kernel chooses where none is asked for.
pub record Answers : Type 0 where
  pub socket : Option ℕ
  pub get_flags : Bool
  pub set_flags : Bool
  pub reuse_addr : Bool
  pub reuse_port : Bool
  pub bind : Bool
  pub chosen : ℕ
  pub listen : Bool
  pub epoll_add : Bool

-- A call returns a descriptor, or throws with a message.
pub data Attempt : Type 0 where
  started : ℕ → Attempt
  throws : Bytes → Attempt

-- A step that has failed closes the descriptor and throws.
abbrev pub give_up : ℕ → Sockets → Bytes → Attempt × Sockets
give_up server_fd s message = (throws message, erase server_fd s)

-- `setup_server` from `bind` on.
unfoldable pub bind_server : ℤ → Answers → ℕ → Sockets → Attempt × Sockets
bind_server port a server_fd s =
    let bound = insert server_fd (some (bound_port port a.chosen)) s in
    if a.bind
    then (if a.listen
        then (started server_fd, bound)
        else give_up server_fd bound (codes "Failed to listen on socket"))
    else give_up server_fd s (codes "Failed to bind socket")

-- `setup_server` behind `socket`.
unfoldable pub configure_server : ℤ → Answers → ℕ → Sockets → Attempt × Sockets
configure_server port a server_fd s =
    if a.get_flags && a.set_flags
    then (if a.reuse_addr
        then (if a.reuse_port
            then bind_server port a server_fd s
            else give_up server_fd s (codes "Failed to set SO_REUSEPORT"))
        else give_up server_fd s (codes "Failed to set SO_REUSEADDR"))
    else give_up server_fd s (codes "Failed to set server socket non-blocking")

unfoldable pub setup_server : ℤ → Answers → Sockets → Attempt × Sockets
setup_server port a s = elim a.socket [
  | none ↦ (throws (codes "Failed to create socket"), s)
  | some server_fd ↦ configure_server port a server_fd (insert server_fd none s)
]

-- What a process has: its open sockets, the registry of their ports, and those that it waits on.
pub record Process : Type 0 where
  pub sockets : Sockets
  pub fd_port : FdPortRegistry
  pub server_fds : List ℕ

-- The body of the loop behind `setup_server`. What `addFdPort` answers is not looked at; a socket
-- that epoll does not take is closed.
unfoldable pub enter_server : ℤ → Answers → ℕ → Process → Process
enter_server port a server_fd p =
    let (_, fd_port) = add_fd_port server_fd port p.fd_port in
    if a.epoll_add
    then record p { fd_port = fd_port; server_fds = p.server_fds ++ server_fd ∷ [] }
    else record p { fd_port = fd_port; sockets = erase server_fd p.sockets }

-- `none` means that an exception has ended the process.
unfoldable pub listen_port : ℤ → Answers → Process → Option Process
listen_port port a p =
    let (attempt, s) = setup_server port a p.sockets in
    elim attempt [
      | throws message ↦ none
      | started server_fd ↦ some (enter_server port a server_fd (record p { sockets = s }))
    ]

-- The loop of `processWorker`.
unfoldable pub listen_ports : List (ℤ × Answers) → Process → Option Process
listen_ports [] p = some p
listen_ports ((port, a) ∷ ports) p = elim (listen_port port a p) [
  | none ↦ none
  | some p' ↦ listen_ports ports p'
]
