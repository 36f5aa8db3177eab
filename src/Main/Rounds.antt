-- ===== src/Main/Rounds.antt =====
-- What holds of the worker processes through all turns of the loop in `main` of SOK.cpp.
use sok.Base.{nat_keys, ℕ, Bool, true, false, List, [], ◌∷◌, Option, if◌then◌else◌, ◌==◌, refl}
use sok.Base.Int.{ℤ}
use sok.Base.Text.{Bytes, bytes_keys, codes}
use sok.Children.{terminate_all}
use sok.Children.Reaping.{terminate_all-leaves}
use sok.Main.{
  Server, Outcome, goes_on, uncaught, undefined, loaded, load, settings, enter_settings,
  enter_ports, cores_of, start, empty, happen_all, Round, command_of, restart, obey, round, Status,
  waits, returned, ended_by_exception, lost, follow, main_loop, main, ◌>>>◌,
}
use sok.Yaml.{Fields, Result-cases, get_int}
use sok.Yaml
use sok.Yaml.Cursor
use sok.Yaml.Parse.{parse_file}
use sok.Main.Forked.{
  IsWell, NoChild, NoChild-IsWell, monitor_children-IsWell, happen_all-IsWell, fork_workers-IsWell,
}

-- What an outcome leaves.
abbrev pub Leaves : Outcome → Type 0
Leaves (goes_on s) = IsWell s
Leaves (uncaught m) = NoChild m
Leaves undefined = Unit {0}

loaded-Leaves :
    (o : Cursor.Outcome Fields) (s : Server) (f : Server → Outcome)
    → NoChild s.manager
    → ((root : Fields) → Leaves (f (record s { config = root })))
    → Leaves (loaded o s >>> f)
unfolding loaded
loaded-Leaves (Cursor.done root) s f gone next = next root
loaded-Leaves (Cursor.throws e) s f gone next = gone
loaded-Leaves Cursor.dangles s f gone next = tt

restart-Leaves :
    (moves : ℕ → Bool) (stod : Bytes → Bool) (file : Option Bytes) (forks : ℕ → Option ℕ)
    (s : Server)
    → IsWell s
    → Leaves (restart moves stod file forks s)
unfolding restart load
restart-Leaves moves stod file forks s well =
    let s' = record s { manager = terminate_all s.manager } in
    let gone = terminate_all-leaves s.manager well.known in
    loaded-Leaves (parse_file moves stod file) s' _ gone (λ root.
      fork_workers-IsWell s'.cpu_cores forks (record s' { config = root })
        (NoChild-IsWell (record s' { config = root }) gone))

enter_settings-Leaves :
    (r : Yaml.Result (List ℤ × ℤ)) (hardware : ℕ) (forks : ℕ → Option ℕ) (s : Server)
    → NoChild s.manager
    → Leaves (enter_settings r hardware forks s)
unfolding enter_settings enter_ports
enter_settings-Leaves (Yaml.throws e) hardware forks s gone = gone
enter_settings-Leaves (Yaml.ok ([], n)) hardware forks s gone = tt
enter_settings-Leaves (Yaml.ok (port ∷ ports, n)) hardware forks s gone =
    fork_workers-IsWell (cores_of n hardware) forks _ (NoChild-IsWell _ gone)

pub start-Leaves :
    (moves : ℕ → Bool) (stod : Bytes → Bool) (file : Option Bytes) (hardware : ℕ)
    (forks : ℕ → Option ℕ)
    → Leaves (start moves stod file hardware forks)
unfolding start load
start-Leaves moves stod file hardware forks =
    loaded-Leaves (parse_file moves stod file) empty _ (λ q. refl)
      (λ root.
        enter_settings-Leaves (settings root) hardware forks (record empty { config = root })
          (λ q. refl))

if-Leaves : (b : Bool) (x y : Outcome) → Leaves x → Leaves y → Leaves (if b then x else y)
if-Leaves true x y left right = left
if-Leaves false x y left right = right

obey-Leaves :
    (moves : ℕ → Bool) (stod : Bytes → Bool) (command : Bytes) (r : Round) (s : Server)
    → IsWell s
    → Leaves (obey moves stod command r s)
unfolding obey
obey-Leaves moves stod command r s well =
    if-Leaves (command == codes "restart") (restart moves stod r.file r.forks s) _
      (restart-Leaves moves stod r.file r.forks s well)
      (if-Leaves (command == codes "exit") (goes_on (record s { running = false })) (goes_on s)
        (record { known = well.known; current = well.current }) well)

then-Leaves :
    (o : Outcome) (f : Server → Outcome)
    → Leaves o
    → ((s : Server) → IsWell s → Leaves (f s))
    → Leaves (o >>> f)
then-Leaves (goes_on s) f left next = next s left
then-Leaves (uncaught m) f left next = left
then-Leaves undefined f left next = tt

pub round-Leaves :
    (moves : ℕ → Bool) (stod : Bytes → Bool) (r : Round) (s : Server)
    → IsWell s
    → Leaves (round moves stod r s)
unfolding round
round-Leaves moves stod r s well =
    then-Leaves (obey moves stod (command_of r.input) r (happen_all r.meanwhile s)) _
      (obey-Leaves moves stod (command_of r.input) r (happen_all r.meanwhile s)
        (happen_all-IsWell r.meanwhile s well))
      monitor_children-IsWell

-- What holds when `main` stands like this.
abbrev pub Stands : Status → Type 0
Stands (waits s) = IsWell s
Stands (returned m) = NoChild m
Stands (ended_by_exception m) = NoChild m
Stands lost = Unit {0}

follow-Stands :
    (o : Outcome) (f : Server → Status)
    → Leaves o
    → ((s : Server) → IsWell s → Stands (f s))
    → Stands (follow o f)
follow-Stands (goes_on s) f left next = next s left
follow-Stands (uncaught m) f left next = left
follow-Stands undefined f left next = tt

if-Stands : (b : Bool) (x y : Status) → Stands x → Stands y → Stands (if b then x else y)
if-Stands true x y left right = left
if-Stands false x y left right = right

pub main_loop-Stands :
    (moves : ℕ → Bool) (stod : Bytes → Bool) (rounds : List Round) (s : Server)
    → IsWell s
    → Stands (main_loop moves stod rounds s)
unfolding main_loop
main_loop-Stands moves stod [] s well =
    if-Stands s.running (waits s) (returned (terminate_all s.manager)) well
      (terminate_all-leaves s.manager well.known)
main_loop-Stands moves stod (r ∷ rounds) s well =
    if-Stands s.running _ (returned (terminate_all s.manager))
      (follow-Stands (round moves stod r s) _ (round-Leaves moves stod r s well)
        (main_loop-Stands moves stod rounds))
      (terminate_all-leaves s.manager well.known)

-- After any turns, with whatever is typed, whatever the configuration's file holds, whatever `fork`
-- answers and whatever signals come: while `main` waits, every child is known, and has been given the
-- configuration that `main` has now, and the ports; when `main` has returned, or an exception has
-- ended it, no child is left, running or ended. (A dangling pointer in the parser and a start without
-- a port are undefined, and nothing is said then.)
pub main-Stands :
    (moves : ℕ → Bool) (stod : Bytes → Bool) (file : Option Bytes) (hardware : ℕ)
    (forks : ℕ → Option ℕ) (rounds : List Round)
    → Stands (main moves stod file hardware forks rounds)
unfolding main
main-Stands moves stod file hardware forks rounds =
    follow-Stands (start moves stod file hardware forks) _
      (start-Leaves moves stod file hardware forks) (main_loop-Stands moves stod rounds)
