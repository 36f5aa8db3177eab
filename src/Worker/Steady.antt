-- ===== src/Worker/Steady.antt =====
-- What the events of other connections leave to a worker: Core/mstd/EpollManager.hpp.
use sok.Base.{
  nat_keys, ℕ, true, List, [], ◌∷◌, Option, none, some, ◌≡◌, ◌≢◌, refl, ◌∙◌, subst, arith,
  Option-cases, Bool-cases, inl, inr,
}
use sok.Base.Int.{ℤ}
use sok.Base.Map.{lookup, insert, lookup-insert, lookup-insert_self, lookup-erase}
use sok.Dispatcher.{dispatch_protocol}
use sok.Https.Objects.{contains}
use sok.Listen.Registry.{get_port}
use sok.Worker.{Worker, Event, accept_client, drop_client, serve, handle_event, run}

-- What the loop only reads.
pub record Same (w w' : Worker) : Type 0 where
  pub config : w'.config ≡ w.config
  pub fd_port : w'.fd_port ≡ w.fd_port
  pub server_fds : w'.server_fds ≡ w.server_fds

Same-trans : (a b c : Worker) → Same a b → Same b c → Same a c
Same-trans a b c s t = record {
  config = t.config ∙ s.config;
  fd_port = t.fd_port ∙ s.fd_port;
  server_fds = t.server_fds ∙ s.server_fds;
}

accept_client-Same :
    (fd : ℕ) (accepted : Option ℕ) (w : Worker) → Same w (accept_client fd accepted w)
unfolding accept_client
accept_client-Same fd none w = record { config = refl; fd_port = refl; server_fds = refl }
accept_client-Same fd (some q) w = record { config = refl; fd_port = refl; server_fds = refl }

serve-Same : (port : ℤ) (e : Event) (w w' : Worker) → serve port e w ≡ some w' → Same w w'
unfolding serve drop_client
serve-Same port e w w' ran =
    elim (Option-cases (dispatch_protocol w.config port e.disk e.client w.handlers)) [
      | inl stuck ↦ absurd (ground arith)
      | inr ((keep, handlers), dispatched) ↦ record {
        config = ground arith;
        fd_port = ground arith;
        server_fds = ground arith;
      }
    ]

handle_event-Same : (e : Event) (w w' : Worker) → handle_event e w ≡ some w' → Same w w'
unfolding handle_event
handle_event-Same e w w' ran = elim (Bool-cases (contains e.fd w.server_fds)) [
  | inl listening ↦ subst (Same w) (ground arith) (accept_client-Same e.fd e.accepted w)
  | inr client ↦ elim (Option-cases (lookup e.fd w.client_map_port)) [
    | inl unknown ↦
        subst (Same w) {x = w} (ground arith)
          (record { config = refl; fd_port = refl; server_fds = refl })
    | inr (port, found) ↦ serve-Same port e w w' (ground arith)
  ]
]

-- The event is of another descriptor, and no connection with this one comes.
abbrev pub IsOther : ℕ → Event → Type 0
IsOther fd e = (e.fd ≢ fd) × (e.accepted ≢ some fd)

abbrev pub AreOther : ℕ → List Event → Type 0
AreOther fd [] = Unit {0}
AreOther fd (e ∷ events) = IsOther fd e × AreOther fd events

lookup-accept_client :
    (fd q : ℕ) (accepted : Option ℕ) (w : Worker)
    → accepted ≢ some q
    → lookup q (accept_client fd accepted w).client_map_port ≡ lookup q w.client_map_port
unfolding accept_client
lookup-accept_client fd q none w fresh = refl
lookup-accept_client fd q (some new) w fresh = ground (
  arith,
  fresh,
  nat_keys.same_iff new q,
  lookup-insert new q (get_port fd w.fd_port) w.client_map_port,
)

lookup-serve :
    (port : ℤ) (q : ℕ) (e : Event) (w w' : Worker)
    → e.fd ≢ q
    → serve port e w ≡ some w'
    → lookup q w'.client_map_port ≡ lookup q w.client_map_port
unfolding serve drop_client
lookup-serve port q e w w' other ran =
    elim (Option-cases (dispatch_protocol w.config port e.disk e.client w.handlers)) [
      | inl stuck ↦ absurd (ground arith)
      | inr ((keep, handlers), dispatched) ↦
          ground (arith, other, nat_keys.same_iff e.fd q, lookup-erase e.fd q w.client_map_port)
    ]

lookup-handle_event :
    (fd : ℕ) (e : Event) (w w' : Worker)
    → IsOther fd e
    → handle_event e w ≡ some w'
    → lookup fd w'.client_map_port ≡ lookup fd w.client_map_port
unfolding handle_event
lookup-handle_event fd e w w' (other, fresh) ran = elim (Bool-cases (contains e.fd w.server_fds)) [
  | inl listening ↦ ground (arith, lookup-accept_client e.fd fd e.accepted w fresh)
  | inr client ↦ elim (Option-cases (lookup e.fd w.client_map_port)) [
    | inl unknown ↦ ground arith
    | inr (port, found) ↦ lookup-serve port fd e w w' other (ground arith)
  ]
]

run-others :
    (fd : ℕ) (events : List Event) (w w' : Worker)
    → AreOther fd events
    → run events w ≡ some w'
    → Same w w' × (lookup fd w'.client_map_port ≡ lookup fd w.client_map_port)
run-others fd [] w w' others ran = (
  subst (Same w) {x = w} (ground arith)
      (record { config = refl; fd_port = refl; server_fds = refl }),
  ground arith,
)
run-others fd (e ∷ events) w w' (one, rest) ran = elim (Option-cases (handle_event e w)) [
  | inl stuck ↦ absurd (ground arith)
  | inr (w₁, stepped) ↦
      let (same, kept) = run-others fd events w₁ w' rest (ground arith) in
      (
        Same-trans w w₁ w' (handle_event-Same e w w₁ stepped) same,
        kept ∙ lookup-handle_event fd e w w₁ one stepped,
      )
]

pub run-connect :
    (fd : ℕ) (connect : Event) (between : List Event) (w w' : Worker)
    → contains connect.fd w.server_fds ≡ true
    → connect.accepted ≡ some fd
    → AreOther fd between
    → run (connect ∷ between) w ≡ some w'
    → Same w w' × (lookup fd w'.client_map_port ≡ some (get_port connect.fd w.fd_port))
unfolding handle_event accept_client
run-connect fd connect between w w' listening accepted others ran =
    let port = get_port connect.fd w.fd_port in
    let w₁ = record w { client_map_port = insert fd port w.client_map_port } in
    let stepped : handle_event connect w ≡ some w₁ = rw (listening, handle_event, accepted) refl in
    let (same, kept) = run-others fd between w₁ w' others (ground (arith, stepped)) in
    (
      record { config = same.config; fd_port = same.fd_port; server_fds = same.server_fds },
      kept ∙ lookup-insert_self fd port w.client_map_port,
    )
