-- ===== src/Worker/Objects.antt =====
-- Whose the objects of OpenSSL are over the whole life of a worker.
use sok.Base.{
  is_some, nat_keys, ℕ, true, false, List, [], ◌∷◌, Option, none, some, ◌≡◌, arith, Bool-cases,
  Option-cases, inl, inr, subst,
}
use sok.Base.Int.{ℤ}
use sok.Base.Map.{Map, lookup, insert, erase, lookup-insert, lookup-erase}
use sok.Dispatcher.{dispatch_protocol}
use sok.Dispatcher.Laws.{Holds, Room, dispatch_protocol-Holds}
use sok.Https.Objects.{Tls, contains, ssl_new, ssl_free, release}
use sok.Https.Owns.{Owns, ssl_new-Owns, release-Owns, release-absent}
use sok.Worker.{Worker, Event, accept_client, drop_client, serve, handle_event, run}

-- Every object is owned by one entry, and every entry's descriptor is a connection of the worker.
pub record BelongTo (clients : Map ℕ ℤ) (t : Tls) : Type 0 where
  pub owned : Owns t
  pub known : (q ssl : ℕ) → lookup q t.ssl_map ≡ some ssl → is_some (lookup q clients) ≡ true

-- The caches are valid, and the objects belong to the worker's connections.
abbrev pub IsUp : Worker → Type 0
IsUp w = Holds (BelongTo w.client_map_port) w.handlers

lookup-release :
    (fd q ssl : ℕ) (t : Tls)
    → lookup q (release fd t).ssl_map ≡ some ssl
    → lookup q t.ssl_map ≡ some ssl
unfolding release ssl_free
lookup-release fd q ssl t e = elim (Option-cases (lookup fd t.ssl_map)) [
  | inl absent ↦ ground arith
  | inr (old, found) ↦ ground (arith, lookup-erase fd q t.ssl_map)
]

release-BelongTo :
    (fd : ℕ) (clients : Map ℕ ℤ) (t : Tls) → BelongTo clients t → BelongTo clients (release fd t)
release-BelongTo fd clients t b = record {
  owned = release-Owns fd t b.owned;
  known = λ q ssl e. b.known q ssl (lookup-release fd q ssl t e);
}

ssl_new-BelongTo :
    (fd : ℕ) (clients : Map ℕ ℤ) (t : Tls)
    → is_some (lookup fd clients) ≡ true
    → BelongTo clients t
    → lookup fd t.ssl_map ≡ none
    → BelongTo clients (ssl_new fd t)
unfolding ssl_new
ssl_new-BelongTo fd clients t open_fd b absent = record {
  owned = ssl_new-Owns fd t b.owned absent;
  known = λ q ssl e.
      ground (arith, lookup-insert fd q t.next t.ssl_map, b.known q ssl, nat_keys.same_iff fd q);
}

drop-BelongTo :
    (fd : ℕ) (clients : Map ℕ ℤ) (t : Tls)
    → BelongTo clients t
    → BelongTo (erase fd clients) (release fd t)
drop-BelongTo fd clients t b = record {
  owned = release-Owns fd t b.owned;
  known = λ q ssl e. ground (
    arith,
    b.known q ssl (lookup-release fd q ssl t e),
    release-absent fd t,
    lookup-erase fd q clients,
    nat_keys.same_iff fd q,
  );
}

insert-BelongTo :
    (fd : ℕ) (port : ℤ) (clients : Map ℕ ℤ) (t : Tls)
    → BelongTo clients t
    → BelongTo (insert fd port clients) t
insert-BelongTo fd port clients t b = record {
  owned = b.owned;
  known = λ q ssl e. ground (arith, b.known q ssl e, lookup-insert fd q port clients);
}

serve-IsUp :
    (port : ℤ) (e : Event) (w w' : Worker)
    → e.client.secure.client_fd ≡ e.fd
    → lookup e.fd w.client_map_port ≡ some port
    → Room e.disk w.handlers.http_cache
    → Room e.disk w.handlers.https_cache
    → IsUp w
    → serve port e w ≡ some w'
    → IsUp w'
unfolding serve drop_client
serve-IsUp port e w w' same open_fd room room' up ran =
    let clients = w.client_map_port in
    elim (Option-cases (dispatch_protocol w.config port e.disk e.client w.handlers)) [
      | inl stuck ↦ absurd (ground arith)
      | inr ((keep, handlers), dispatched) ↦
          let fd = e.client.secure.client_fd in
          let known : is_some (lookup fd clients) ≡ true = ground arith in
          let after =
            dispatch_protocol-Holds w.config port e.disk e.client (BelongTo clients)
              (release-BelongTo fd clients)
              (λ t b absent. ssl_new-BelongTo fd clients t known b absent) w.handlers handlers keep
              up room room' dispatched in
          elim (Bool-cases keep) [
            | inl kept ↦
                subst IsUp {x = record w { handlers = handlers }} {y = w'} (ground arith) after
            | inr gone ↦
                let closed : Worker = record w {
                  handlers = record handlers { tls = release e.fd handlers.tls };
                  client_map_port = erase e.fd clients;
                } in
                subst IsUp {x = closed} {y = w'} (ground arith) (record {
                  http_valid = after.http_valid;
                  https_valid = after.https_valid;
                  kept = drop-BelongTo e.fd clients handlers.tls after.kept;
                })
          ]
    ]

-- The handler works on the event's descriptor, and the sizes of all files fit beside the budgets.
abbrev pub IsFit : Event → Worker → Type 0
IsFit e w =
    (e.client.secure.client_fd ≡ e.fd)
    × Room e.disk w.handlers.http_cache
    × Room e.disk w.handlers.https_cache

abbrev pub AreFit : List Event → Worker → Type 0
AreFit [] w = Unit {0}
AreFit (e ∷ events) w = IsFit e w × ((w' : Worker) → handle_event e w ≡ some w' → AreFit events w')

accept_client-IsUp :
    (server_fd : ℕ) (accepted : Option ℕ) (w : Worker)
    → IsUp w
    → IsUp (accept_client server_fd accepted w)
unfolding accept_client
accept_client-IsUp server_fd none w up = up
accept_client-IsUp server_fd (some fd) w up = record {
  http_valid = up.http_valid;
  https_valid = up.https_valid;
  kept = insert-BelongTo fd _ w.client_map_port w.handlers.tls up.kept;
}

handle_event-IsUp :
    (e : Event) (w w' : Worker) → IsFit e w → IsUp w → handle_event e w ≡ some w' → IsUp w'
unfolding handle_event
handle_event-IsUp e w w' (same, room, room') up ran =
    elim (Bool-cases (contains e.fd w.server_fds)) [
      | inl listening ↦
          subst IsUp {x = accept_client e.fd e.accepted w} {y = w'} (ground arith)
            (accept_client-IsUp e.fd e.accepted w up)
      | inr client ↦ elim (Option-cases (lookup e.fd w.client_map_port)) [
        | inl unknown ↦ subst IsUp {x = w} {y = w'} (ground arith) up
        | inr (port, found) ↦ serve-IsUp port e w w' same found room room' up (ground arith)
      ]
    ]

pub run-IsUp :
    (events : List Event) (w w' : Worker)
    → AreFit events w
    → IsUp w
    → run events w ≡ some w'
    → IsUp w'
run-IsUp [] w w' fit up ran = subst IsUp {x = w} {y = w'} (ground arith) up
run-IsUp (e ∷ events) w w' (one, rest) up ran = elim (Option-cases (handle_event e w)) [
  | inl stuck ↦ absurd (ground arith)
  | inr (w₁, stepped) ↦
      run-IsUp events w₁ w' (rest w₁ stepped) (handle_event-IsUp e w w₁ one up stepped)
        (ground arith)
]

-- Over the whole life of a worker, whatever connections come and whatever they send: each object of
-- OpenSSL that is allocated is the one of a connection that the worker has, no two connections share
-- one, and none was freed twice; so when no connection is left none is allocated. Both caches stay
-- valid. (Events are handled one after the other, each handler works on its event's descriptor, and
-- the sizes of files fit beside the budgets in `size_t`.)
pub run-BelongTo :
    (events : List Event) (w w' : Worker)
    → AreFit events w
    → IsUp w
    → run events w ≡ some w'
    → IsUp w'
      × ((ssl : ℕ)
          → contains ssl w'.handlers.tls.live ≡ true
          → (fd : ℕ) × (port : ℤ) × (lookup fd w'.client_map_port ≡ some port)
            × (lookup fd w'.handlers.tls.ssl_map ≡ some ssl)
            × ((fd' : ℕ) → lookup fd' w'.handlers.tls.ssl_map ≡ some ssl → fd ≡ fd'))
      × (w'.client_map_port ≡ [] → (ssl : ℕ) → contains ssl w'.handlers.tls.live ≡ false)
run-BelongTo events w w' fit up ran =
    let up' = run-IsUp events w w' fit up ran in
    let b = up'.kept in
    let owner : (ssl : ℕ)
        → contains ssl w'.handlers.tls.live ≡ true
        → (fd : ℕ) × (port : ℤ) × (lookup fd w'.client_map_port ≡ some port)
          × (lookup fd w'.handlers.tls.ssl_map ≡ some ssl)
          × ((fd' : ℕ) → lookup fd' w'.handlers.tls.ssl_map ≡ some ssl → fd ≡ fd') =
      λ ssl alive.
        let (fd, held) = b.owned.no_leak ssl alive in
        elim (Option-cases (lookup fd w'.client_map_port)) [
          | inl gone ↦ absurd (ground (arith, b.known fd ssl held))
          | inr (port, found) ↦
              (fd, port, found, held, λ fd' held'. b.owned.apart fd fd' ssl held held')
        ] in
    (
      up',
      owner,
      λ closed ssl. elim (Bool-cases (contains ssl w'.handlers.tls.live)) [
        | inl alive ↦ (let (fd, port, found, _, _) = owner ssl alive in absurd (ground arith))
        | inr free ↦ free
      ],
    )
