-- ===== src/Listen/Serving.antt =====
-- What the sockets of SOK.cpp's `processWorker` and their registry have to do with each other.
use sok.Base.{
  nat_keys, ℕ, true, false, ◌+◌, List, [], ◌∷◌, ◌++◌, Option, none, some, if◌then◌else◌, ◌==◌, ◌≡◌,
  ◌⊎◌, refl, arith, Option-cases, inl, inr, length, length-append, subst, sym, ◌∙◌, ap,
}
use sok.Base.Int.{ℤ}
use sok.Base.Map.{lookup, insert, erase, lookup-insert, lookup-erase}
use sok.Base.Text.{Bytes}
use sok.Listen.{
  Sockets, Answers, Attempt, started, throws, Process, bound_port, bind_server, configure_server,
  setup_server, enter_server, listen_port, listen_ports,
}
use sok.Listen.Registry.{lookup-add_fd_port, keep_first}

-- The sockets behind an attempt: one more, bound to the port, or those that there were.
abbrev pub after_attempt : ℕ → ℕ → Attempt → Sockets → Option (Option ℕ)
after_attempt q bound (throws message) s = lookup q s
after_attempt q bound (started fd) s = if fd == q then some (some bound) else lookup q s

lookup-erase-insert :
    (fd q : ℕ) (v : Option ℕ) (s : Sockets)
    → lookup fd s ≡ none
    → lookup q (erase fd (insert fd v s)) ≡ lookup q s
lookup-erase-insert fd q v s h =
    ground
      (arith, lookup-erase fd q (insert fd v s), lookup-insert fd q v s, nat_keys.same_iff fd q)

-- Whatever step fails, `setup_server` leaves the sockets that were open before, and if it returns a
-- descriptor, there is one more, bound to the port; if the kernel's descriptors are new.
pub setup_server-lookup :
    (q : ℕ) (port : ℤ) (a : Answers) (s : Sockets)
    → ((fd : ℕ) → a.socket ≡ some fd → lookup fd s ≡ none)
    → lookup q (setup_server port a s).1
      ≡ after_attempt q (bound_port port a.chosen) (setup_server port a s).0 s
unfolding setup_server configure_server bind_server
setup_server-lookup q port a s fresh = elim (Option-cases a.socket) [
  | inl refused ↦ rw (refused, setup_server)
  | inr (fd, e) ↦ ground (
    arith,
    fresh fd e,
    lookup-erase-insert fd q none s (fresh fd e),
    lookup-insert fd q none s,
    lookup-insert fd q (some (bound_port port a.chosen)) (insert fd none s),
    lookup-erase fd q (insert fd (some (bound_port port a.chosen)) (insert fd none s)),
    nat_keys.same_iff fd q,
  )
]

setup_server-socket :
    (port : ℤ) (a : Answers) (s : Sockets) (fd : ℕ)
    → (setup_server port a s).0 ≡ started fd
    → a.socket ≡ some fd
unfolding setup_server configure_server bind_server
setup_server-socket port a s fd e = ground arith

-- The registry has a port for the descriptor, which is bound to what `htons` keeps of that port, or
-- to a port that the kernel chose if that is 0.
abbrev pub Served : Process → ℕ → Type 0
Served p fd =
    (port : ℤ) × (chosen : ℕ) × (lookup fd p.sockets ≡ some (some (bound_port port chosen)))
    × (lookup fd p.fd_port ≡ some port)

abbrev pub AllServed : Process → List ℕ → Type 0
AllServed p [] = Unit {0}
AllServed p (fd ∷ fds) = Served p fd × AllServed p fds

-- All of them are, and the registry knows open sockets only.
pub record IsServing (p : Process) : Type 0 where
  pub served : AllServed p p.server_fds
  pub only_open : (fd : ℕ) → lookup fd p.sockets ≡ none → lookup fd p.fd_port ≡ none

-- The descriptors that the kernel gives along the loop are not open.
abbrev pub AreFresh : List (ℤ × Answers) → Process → Type 0
AreFresh [] p = Unit {0}
AreFresh ((port, a) ∷ ports) p =
    ((fd : ℕ) → a.socket ≡ some fd → lookup fd p.sockets ≡ none)
    × ((p' : Process) → listen_port port a p ≡ some p' → AreFresh ports p')

-- epoll takes each socket.
abbrev pub AllTaken : List (ℤ × Answers) → Type 0
AllTaken [] = Unit {0}
AllTaken ((port, a) ∷ ports) = (a.epoll_add ≡ true) × AllTaken ports

AllServed-append :
    (p : Process) (fds : List ℕ) (fd : ℕ)
    → AllServed p fds
    → Served p fd
    → AllServed p (fds ++ fd ∷ [])
AllServed-append p [] fd all one = (one, tt)
AllServed-append p (x ∷ fds) fd all one = (all.0, AllServed-append p fds fd all.1 one)

AllServed-keeps :
    (p p' : Process) (fds : List ℕ)
    → ((fd : ℕ) → Served p fd → Served p' fd)
    → AllServed p fds
    → AllServed p' fds
AllServed-keeps p p' [] keeps all = tt
AllServed-keeps p p' (x ∷ fds) keeps all = (keeps x all.0, AllServed-keeps p p' fds keeps all.1)

module _ (port : ℤ) (a : Answers) (fd : ℕ) (p : Process) (s : Sockets)
    (fresh : lookup fd p.sockets ≡ none)
    (after : (q : ℕ)
      → lookup q s
        ≡ (if fd == q then some (some (bound_port port a.chosen)) else lookup q p.sockets))
    (taken : a.epoll_add ≡ true) (serving : IsServing p) where
  lookup-entered_port :
      (q : ℕ)
      → lookup q (enter_server port a fd (record p { sockets = s })).fd_port
        ≡ keep_first q fd port (lookup q p.fd_port)
  unfolding enter_server
  lookup-entered_port q = ground (arith, lookup-add_fd_port q fd port p.fd_port)

  entered_sockets : (enter_server port a fd (record p { sockets = s })).sockets ≡ s
  unfolding enter_server
  entered_sockets = ground arith

  entered_keeps :
      (q : ℕ) → Served p q → Served (enter_server port a fd (record p { sockets = s })) q
  entered_keeps q (known, chosen, bound, registered) =
      let other : (fd == q) ≡ false = ground (arith, nat_keys.same_iff fd q) in
      (
        known,
        chosen,
        ap (lookup q) entered_sockets ∙ ground (arith, after q),
        ground (arith, lookup-entered_port q),
      )

  entered_serves : Served (enter_server port a fd (record p { sockets = s })) fd
  entered_serves =
      let unknown = serving.only_open fd fresh in
      (
        port,
        a.chosen,
        ap (lookup fd) entered_sockets ∙ ground (arith, after fd, nat_keys.same_iff fd fd),
        ground (arith, lookup-entered_port fd, nat_keys.same_iff fd fd),
      )

  entered_server_fds :
      (enter_server port a fd (record p { sockets = s })).server_fds ≡ p.server_fds ++ fd ∷ []
  unfolding enter_server
  entered_server_fds = ground arith

  enter_server-IsServing : IsServing (enter_server port a fd (record p { sockets = s }))
  enter_server-IsServing =
      let p' = enter_server port a fd (record p { sockets = s }) in
      record {
        served = subst (AllServed p') (sym entered_server_fds) (
            AllServed-append p' p.server_fds fd
              (AllServed-keeps p p' p.server_fds entered_keeps serving.served) entered_serves);
        only_open = λ q closed. ground (
          arith,
          sym (ap (lookup q) entered_sockets) ∙ closed,
          after q,
          serving.only_open q,
          lookup-entered_port q,
        );
      }

pub Attempt-cases : (r : Attempt) → ((m : Bytes) × (r ≡ throws m)) ⊎ ((fd : ℕ) × (r ≡ started fd))
Attempt-cases (throws m) = inl (m, refl)
Attempt-cases (started fd) = inr (fd, refl)

listen_port-IsServing :
    (port : ℤ) (a : Answers) (p p' : Process)
    → ((fd : ℕ) → a.socket ≡ some fd → lookup fd p.sockets ≡ none)
    → a.epoll_add ≡ true
    → IsServing p
    → listen_port port a p ≡ some p'
    → IsServing p' × (length p'.server_fds ≡ length p.server_fds + 1)
unfolding listen_port
listen_port-IsServing port a p p' fresh taken serving e =
    let s = (setup_server port a p.sockets).1 in
    elim (Attempt-cases (setup_server port a p.sockets).0) [
      | inl (message, thrown) ↦ absurd (ground arith)
      | inr (fd, ok) ↦
          let unused = fresh fd (setup_server-socket port a p.sockets fd ok) in
          let after : (q : ℕ)
              → lookup q s ≡ after_attempt q (bound_port port a.chosen) (started fd) p.sockets =
            λ q.
              setup_server-lookup q port a p.sockets fresh
              ∙ ap (λ r. after_attempt q (bound_port port a.chosen) r p.sockets) ok in
          let entered : enter_server port a fd (record p { sockets = s }) ≡ p' = ground arith in
          (
            subst IsServing entered
                (enter_server-IsServing port a fd p s unused after taken serving),
            sym (ap (λ p'. length p'.server_fds) entered)
                ∙ ap length (entered_server_fds port a fd p s unused after taken serving)
                ∙ length-append p.server_fds (fd ∷ []),
          )
    ]

-- If epoll takes each socket and the kernel's descriptors are new, a process that gets through the
-- loop waits on one more socket for each port, and each descriptor that it waits on is bound to the
-- 16 bits that `htons` keeps of the port that the registry has for it, or to a port that the kernel
-- chose where they are 0.
pub listen_ports-IsServing :
    (ports : List (ℤ × Answers)) (p p' : Process)
    → AreFresh ports p
    → AllTaken ports
    → IsServing p
    → listen_ports ports p ≡ some p'
    → IsServing p' × (length p'.server_fds ≡ length p.server_fds + length ports)
unfolding listen_ports
listen_ports-IsServing [] p p' fresh taken serving e =
    (subst IsServing (ground arith) serving, ground arith)
listen_ports-IsServing ((port, a) ∷ ports) p p' fresh taken serving e =
    elim (Option-cases (listen_port port a p)) [
      | inl thrown ↦ absurd (ground arith)
      | inr (p₁, stepped) ↦
          let (serving₁, one) = listen_port-IsServing port a p p₁ fresh.0 taken.0 serving stepped in
          let (serving', more) =
            listen_ports-IsServing ports p₁ p' (fresh.1 p₁ stepped) taken.1 serving₁
              (ground arith) in
          (serving', omega (arith, one, more))
    ]
