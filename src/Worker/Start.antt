-- ===== src/Worker/Start.antt =====
-- `processWorker` of SOK.cpp up to its event loop, with `create_ssl_ctx` of Core/protocols/https.hpp and
-- the head of `epoll_worker` of Core/mstd/EpollManager.hpp.
use sok.Base.{
  nat_keys, ℕ, ◌-◌, ◌^◌, ◌<◌, leb, zero, suc, ◌*◌, Bool, true, false, ◌&&◌, List, [], Option, none,
  some, if◌then◌else◌, ◌≡◌, refl, arith, ap, sym, Bool-cases, inl, inr, subst,
}
use sok.Base.Int.{ℤ, pos, negsuc}
use sok.Base.Text.{codes}
use sok.FileCache
use sok.FileCache.Refine.{init-IsValid}
use sok.Https.Objects.{contains}
use sok.Listen.{Answers, Process, listen_ports}
use sok.Worker.{Worker}
use sok.Worker.Objects.{IsUp}
use sok.Worker.Serving.{RunsWith}
use sok.Yaml.{Fields, Result, ok, throws, get_int}

-- What OpenSSL answers: the context is made, and takes the certificate and the key, which match.
pub record SslAnswers : Type 0 where
  pub made : Bool
  pub certificate : Bool
  pub private_key : Bool
  pub matching : Bool

-- Where a step fails the process exits.
unfoldable pub create_ssl_ctx : SslAnswers → Bool
create_ssl_ctx a =
    if a.made
    then (if a.certificate then (if a.private_key then a.matching else false) else false)
    else false

-- The process waits for events with a thread in its pool at least, or without one, so that what is
-- queued is never taken; or it has ended with a failure. An array of events whose length is not
-- positive is undefined.
pub data Started : Type 0 where
  runs starves : Worker → Started
  exits undefined : Started

-- The conversion of an `int` to the `size_t` of the constructor of `ThreadPool`.
unfoldable pub size_t_of : ℤ → ℕ
size_t_of (pos n) = n
size_t_of (negsuc n) = 2 ^ 64 - suc n

-- The loop of the constructor, for how many threads can be made; `none` where one cannot, and the
-- exception ends the process. The result is the number of threads.
unfoldable pub make_threads : ℕ → ℕ → Option ℕ
make_threads num_threads available = if leb num_threads available then some num_threads else none

-- The pool is made, and the loop begins.
unfoldable pub wait_for_events : Option ℕ → Worker → Started
wait_for_events none w = exits
wait_for_events (some zero) w = starves w
wait_for_events (some (suc n)) w = runs w

-- The static objects of a new process.
abbrev pub new_worker : Fields → Process → Worker
new_worker root p = record {
  config = root;
  fd_port = p.fd_port;
  server_fds = p.server_fds;
  client_map_port = [];
  handlers = record {
    http_cache = FileCache.init (1024 * 1024 * 50);
    https_cache = FileCache.init (1024 * 1024 * 50);
    tls = record { ssl_map = []; live = []; next = 0; double_free = false };
  };
}

-- `epoll_worker` up to its loop, for the length of the array and the number of threads.
unfoldable pub enter_loop : ℕ → Result ℤ → Result ℤ → Worker → Started
enter_loop available (throws e) max_threads w = exits
enter_loop available (ok (pos zero)) max_threads w = undefined
enter_loop available (ok (negsuc n)) max_threads w = undefined
enter_loop available (ok (pos (suc n))) (throws e) w = exits
enter_loop available (ok (pos (suc n))) (ok threads) w =
    wait_for_events (make_threads (size_t_of threads) available) w

unfoldable pub listen_and_enter : ℕ → Fields → Option Process → Started
listen_and_enter available root none = exits
listen_and_enter available root (some p) =
    enter_loop available (get_int root (codes "per_process_max_events"))
      (get_int root (codes "per_process_max_thread_count")) (new_worker root p)

-- `processWorker`, for whether there is an epoll instance, and how many threads can be made.
unfoldable pub process_worker :
    Fields → Bool → SslAnswers → ℕ → List (ℤ × Answers) → Process → Started
process_worker root epoll ssl available ports before =
    if epoll && create_ssl_ctx ssl
    then listen_and_enter available root (listen_ports ports before)
    else exits

new_worker-IsUp : (root : Fields) (p : Process) → IsUp (new_worker root p)
unfolding contains
new_worker-IsUp root p = record {
  http_valid = init-IsValid (1024 * 1024 * 50);
  https_valid = init-IsValid (1024 * 1024 * 50);
  kept = record {
    owned = record {
      entries = λ fd ssl e. cc;
      apart = λ fd fd' ssl e e'. cc;
      no_leak = λ ssl e. absurd (ground arith);
      fresh = λ ssl e. absurd (ground arith);
      freed_once = refl;
    };
    known = λ q ssl e. cc;
  };
}

-- The configuration asks for a thread at least.
abbrev pub AsksForThreads : Fields → Type 0
AsksForThreads root =
    (threads : ℤ) × (get_int root (codes "per_process_max_thread_count") ≡ ok threads)
    × (0 < size_t_of threads)

made-runs :
    (num_threads available : ℕ) (w w' : Worker)
    → wait_for_events (make_threads num_threads available) w ≡ runs w'
    → (w ≡ w') × (0 < num_threads)
unfolding wait_for_events make_threads
made-runs zero available w w' h = absurd (ground arith)
made-runs (suc n) available w w' h = elim (Bool-cases (leb (suc n) available)) [
  | inl enough ↦ (ground arith, omega arith)
  | inr short ↦ absurd (ground arith)
]

enter_loop-runs :
    (available : ℕ) (events threads : Result ℤ) (w w' : Worker)
    → enter_loop available events threads w ≡ runs w'
    → (w ≡ w') × (n : ℤ) × (threads ≡ ok n) × (0 < size_t_of n)
unfolding enter_loop
enter_loop-runs available (throws e) threads w w' h = absurd (cc)
enter_loop-runs available (ok (pos zero)) threads w w' h = absurd (cc)
enter_loop-runs available (ok (negsuc n)) threads w w' h = absurd (cc)
enter_loop-runs available (ok (pos (suc n))) (throws e) w w' h = absurd (cc)
enter_loop-runs available (ok (pos (suc n))) (ok m) w w' h =
    let (same, some_threads) = made-runs (size_t_of m) available w w' h in
    (same, m, refl, some_threads)

listen_and_enter-runs :
    (available : ℕ) (root : Fields) (o : Option Process) (w : Worker)
    → listen_and_enter available root o ≡ runs w
    → (p : Process) × (o ≡ some p)
      × RunsWith root p w
      × IsUp w
      × (w.client_map_port ≡ [])
      × AsksForThreads root
unfolding listen_and_enter
listen_and_enter-runs available root none w h = absurd (cc)
listen_and_enter-runs available root (some p) w h =
    let (same, n, found, some_threads) = enter_loop-runs available _ _ (new_worker root p) w h in
    (
      p,
      refl,
      subst (RunsWith root p) same (record { config = refl; fd_port = refl; server_fds = refl }),
      subst IsUp same (new_worker-IsUp root p),
      ap (λ (v : Worker). v.client_map_port) (sym same),
      (n, found, some_threads),
    )

-- A process that gets to its event loop with a thread in its pool has been asked for one, has got
-- through the loop over the ports, waits on those sockets with the configuration that it was given,
-- and starts without a connection, with valid caches, and without objects of OpenSSL.
pub process_worker-RunsWith :
    (root : Fields) (epoll : Bool) (ssl : SslAnswers) (available : ℕ) (ports : List (ℤ × Answers))
    (before : Process) (w : Worker)
    → process_worker root epoll ssl available ports before ≡ runs w
    → (create_ssl_ctx ssl ≡ true)
      × (p : Process) × (listen_ports ports before ≡ some p)
      × RunsWith root p w
      × IsUp w
      × (w.client_map_port ≡ [])
      × AsksForThreads root
unfolding process_worker
process_worker-RunsWith root epoll ssl available ports before w h =
    elim (Bool-cases (epoll && create_ssl_ctx ssl)) [
      | inl ready ↦
          let (p, listened, runs_with, up, none', threads) =
            listen_and_enter-runs available root (listen_ports ports before) w (ground arith) in
          (ground arith, p, listened, runs_with, up, none', threads)
      | inr failed ↦ absurd (ground arith)
    ]
