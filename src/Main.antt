-- ===== src/Main.antt =====
-- `main` of SOK.cpp with the configuration that it holds (Core/utils/Config.hpp): the start, the loop
-- that reads commands, and the worker processes that it forks. What is typed, what the configuration's
-- file holds, what `fork` answers, and what signals come while `main` waits are arguments. The
-- ports are read once.
pub mod Forked
pub mod Rounds
pub mod Input
pub mod Restart
pub mod Serving
mod Example
mod Tests
mod ServingTests
use sok.Base.{
  nat_keys, ℕ, zero, suc, Bool, true, false, List, [], ◌∷◌, Option, none, some, if◌then◌else◌, ◌==◌,
}
use sok.Base.Int.{ℤ, pos, negsuc}
use sok.Base.Map.{Map, lookup, insert}
use sok.Base.Text.{Bytes, bytes_keys, codes}
use sok.Children.{
  Life, running, ended, ForkManager, create_child_process, terminate_all, monitor_children,
  sigchld_handler, initial,
}
use sok.Site.{read_ports}
use sok.Yaml.{Fields, get_int, ◌>>=◌}
use sok.Yaml
use sok.Yaml.Cursor
use sok.Yaml.Parse.{parse_file}

-- What a worker process starts with: its copy of the configuration, and the ports.
pub record Child : Type 0 where
  pub config : Fields
  pub ports : List ℤ

-- `running`, the configuration, `ports`, `cpu_cores`, `forkManager`, and what each child that was
-- forked has been given.
pub record Server : Type 0 where
  pub running : Bool
  pub config : Fields
  pub ports : List ℤ
  pub cpu_cores : ℕ
  pub manager : ForkManager
  pub forked : Map ℕ Child

-- A part of `main` goes on, or an exception ends it with these children, or it does what is undefined.
pub data Outcome : Type 0 where
  goes_on : Server → Outcome
  uncaught : ForkManager → Outcome
  undefined : Outcome

infixl 5 ◌>>>◌
abbrev pub ◌>>>◌ : Outcome → (Server → Outcome) → Outcome
goes_on s >>> f = f s
uncaught m >>> f = uncaught m
undefined >>> f = undefined

-- One turn of the loops that fork, for what `fork` answers.
unfoldable pub fork_worker : Option ℕ → Server → Server
fork_worker none s = record s { manager = create_child_process none s.manager }
fork_worker (some pid) s = record s {
  manager = create_child_process (some pid) s.manager;
  forked = insert pid (record { config = s.config; ports = s.ports }) s.forked;
}

unfoldable pub fork_workers : ℕ → (ℕ → Option ℕ) → Server → Server
fork_workers zero forks s = s
fork_workers (suc n) forks s = fork_workers n (λ i. forks (suc i)) (fork_worker (forks 0) s)

-- What is read becomes the configuration; an exception leaves the old one.
unfoldable pub loaded : Cursor.Outcome Fields → Server → Outcome
loaded (Cursor.done root) s = goes_on (record s { config = root })
loaded (Cursor.throws e) s = uncaught s.manager
loaded Cursor.dangles s = undefined

-- `Config::load`.
unfoldable pub load : (ℕ → Bool) → (Bytes → Bool) → Option Bytes → Server → Outcome
load moves stod file s = loaded (parse_file moves stod file) s

-- A number of cores above 0 is taken from the configuration.
unfoldable pub cores_of : ℤ → ℕ → ℕ
cores_of (pos zero) hardware = hardware
cores_of (pos (suc n)) hardware = suc n
cores_of (negsuc n) hardware = hardware

-- Before anything is read.
abbrev pub empty : Server
empty = record {
  running = true;
  config = Yaml.end;
  ports = [];
  cpu_cores = 0;
  manager = initial;
  forked = [];
}

-- Where there is no port `ports[0]` is outside the vector.
unfoldable pub enter_ports : List ℤ → ℕ → (ℕ → Option ℕ) → Server → Outcome
enter_ports [] cpu_cores forks s = undefined
enter_ports (port ∷ ports) cpu_cores forks s =
    goes_on
      (fork_workers cpu_cores forks (record s { ports = port ∷ ports; cpu_cores = cpu_cores }))

-- The ports and the number of cores, as `main` reads them.
unfoldable pub settings : Fields → Yaml.Result (List ℤ × ℤ)
settings root =
    read_ports root >>= λ ports. get_int root (codes "cpu_cores") >>= λ n. Yaml.ok (ports, n)

unfoldable pub enter_settings : Yaml.Result (List ℤ × ℤ) → ℕ → (ℕ → Option ℕ) → Server → Outcome
enter_settings (Yaml.throws e) hardware forks s = uncaught s.manager
enter_settings (Yaml.ok (ports, n)) hardware forks s =
    enter_ports ports (cores_of n hardware) forks s

-- `main` up to its loop, where the machine has this many cores.
unfoldable pub start : (ℕ → Bool) → (Bytes → Bool) → Option Bytes → ℕ → (ℕ → Option ℕ) → Outcome
start moves stod file hardware forks =
    load moves stod file empty >>> λ s. enter_settings (settings s.config) hardware forks s

-- What may come while `main` waits for a command: SIGINT, a child's end, and SIGCHLD.
pub data Happening : Type 0 where
  interrupted signalled : Happening
  child_ended : ℕ → Happening

-- The child has run, and has ended.
unfoldable pub end_child : ℕ → Option Life → ForkManager → ForkManager
end_child pid (some running) m = record m { children = insert pid ended m.children }
end_child pid (some ended) m = m
end_child pid none m = m

unfoldable pub happen : Happening → Server → Server
happen interrupted s = record s { running = false }
happen signalled s = record s { manager = sigchld_handler s.manager }
happen (child_ended pid) s = record s {
  manager = end_child pid (lookup pid s.manager.children) s.manager;
}

abbrev pub happen_all : List Happening → Server → Server
happen_all [] s = s
happen_all (h ∷ hs) s = happen_all hs (happen h s)

-- One turn of the loop: what comes meanwhile, the word that is read, if one is, and for a restart the
-- file and what `fork` answers.
pub record Round : Type 0 where
  pub meanwhile : List Happening
  pub input : Option Bytes
  pub file : Option Bytes
  pub forks : ℕ → Option ℕ

-- Where no word can be read `command` stays empty.
abbrev pub command_of : Option Bytes → Bytes
command_of none = []
command_of (some word) = word

unfoldable pub restart :
    (ℕ → Bool) → (Bytes → Bool) → Option Bytes → (ℕ → Option ℕ) → Server → Outcome
restart moves stod file forks s =
    load moves stod file (record s { manager = terminate_all s.manager }) >>> λ s'.
    goes_on (fork_workers s'.cpu_cores forks s')

-- The body of the loop behind the reading of the command.
unfoldable pub obey : (ℕ → Bool) → (Bytes → Bool) → Bytes → Round → Server → Outcome
obey moves stod command r s =
    if command == codes "restart"
    then restart moves stod r.file r.forks s
    else if command == codes "exit"
    then goes_on (record s { running = false })
    else goes_on s

unfoldable pub round : (ℕ → Bool) → (Bytes → Bool) → Round → Server → Outcome
round moves stod r s = obey moves stod (command_of r.input) r (happen_all r.meanwhile s) >>> λ s'.
    goes_on (record s' { manager = monitor_children s'.manager })

-- After these turns `main` waits for more, has returned, has ended by an exception, or has done what is
-- undefined.
pub data Status : Type 0 where
  waits : Server → Status
  returned : ForkManager → Status
  ended_by_exception : ForkManager → Status
  lost : Status

abbrev pub follow : Outcome → (Server → Status) → Status
follow (goes_on s) f = f s
follow (uncaught m) f = ended_by_exception m
follow undefined f = lost

-- The loop, and what stands behind it.
unfoldable pub main_loop : (ℕ → Bool) → (Bytes → Bool) → List Round → Server → Status
main_loop moves stod [] s = if s.running then waits s else returned (terminate_all s.manager)
main_loop moves stod (r ∷ rs) s =
    let rest = follow (round moves stod r s) (main_loop moves stod rs) in
    if s.running then rest else returned (terminate_all s.manager)

unfoldable pub main :
    (ℕ → Bool) → (Bytes → Bool) → Option Bytes → ℕ → (ℕ → Option ℕ) → List Round → Status
main moves stod file hardware forks rounds =
    follow (start moves stod file hardware forks) (main_loop moves stod rounds)
