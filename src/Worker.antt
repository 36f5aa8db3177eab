-- ===== src/Worker.antt =====
-- One worker process: `epoll_worker` of Core/mstd/EpollManager.hpp with the handlers that its threads
-- call, an event at a time. The pool has a thread: a worker that starts without one is told apart in
-- Worker/Start. What threads do to one another is the subject of Epoll.
pub mod Objects
pub mod Ports
pub mod Steady
pub mod Requests
pub mod Serving
pub mod Start
mod Tests
use sok.Base.{
  nat_keys, ℕ, Bool, true, false, List, [], ◌∷◌, Option, none, some, if◌then◌else◌, ◌>>=◌,
}
use sok.Base.Int.{ℤ}
use sok.Base.Map.{Map, lookup, insert, erase}
use sok.Base.Text.{Bytes}
use sok.Dispatcher.{Client, Handlers, dispatch_protocol}
use sok.FileCache.{FileView}
use sok.Https.Objects.{contains, release}
use sok.Listen.Registry.{FdPortRegistry, get_port}
use sok.Yaml.{Fields}

-- The process's copy of the configuration, the registry of the listening sockets and their
-- descriptors, the ports of the connections, and the static state of the handlers.
pub record Worker : Type 0 where
  pub config : Fields
  pub fd_port : FdPortRegistry
  pub server_fds : List ℕ
  pub client_map_port : Map ℕ ℤ
  pub handlers : Handlers

-- An event that `epoll_wait` reports of a descriptor: what `accept` answers if it is a listening
-- socket, and else the client and the files as the handler finds them.
pub record Event : Type 0 where
  pub fd : ℕ
  pub accepted : Option ℕ
  pub client : Client
  pub disk : Bytes → FileView

-- A new connection belongs to the port of the socket that it came from.
unfoldable pub accept_client : ℕ → Option ℕ → Worker → Worker
accept_client server_fd none w = w
accept_client server_fd (some new_client_fd) w = record w {
  client_map_port = insert new_client_fd (get_port server_fd w.fd_port) w.client_map_port;
}

-- What follows where the handler returns false.
unfoldable pub drop_client : ℕ → Worker → Worker
drop_client fd w = record w {
  handlers = record w.handlers { tls = release fd w.handlers.tls };
  client_map_port = erase fd w.client_map_port;
}

-- `handle_connection`, and what follows.
unfoldable pub serve : ℤ → Event → Worker → Option Worker
serve port e w =
    dispatch_protocol w.config port e.disk e.client w.handlers >>= λ (keep_alive, handlers). some (
      if keep_alive
      then record w { handlers = handlers }
      else drop_client e.fd (record w { handlers = handlers }))

-- The body of the loop over the events; `none` where the handler has not returned.
unfoldable pub handle_event : Event → Worker → Option Worker
handle_event e w =
    if contains e.fd w.server_fds
    then some (accept_client e.fd e.accepted w)
    else elim (lookup e.fd w.client_map_port) [ none ↦ some w | some port ↦ serve port e w ]

abbrev pub run : List Event → Worker → Option Worker
run [] w = some w
run (e ∷ events) w = handle_event e w >>= λ w'. run events w'
