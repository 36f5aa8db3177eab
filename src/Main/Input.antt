-- ===== src/Main/Input.antt =====
-- When the loop of `main` in SOK.cpp ends.
use sok.Base.{
  nat_keys, ℕ, Bool, true, false, List, [], ◌∷◌, ◌++◌, some, if◌then◌else◌, ◌==◌, ◌≡◌, refl, ap,
  ◌∙◌, subst,
}
use sok.Base.Text.{Bytes, bytes_keys, codes}
use sok.Children.{ForkManager, terminate_all, monitor_children}
use sok.Main.{
  Server, goes_on, Happening, interrupted, signalled, child_ended, happen, happen_all, Round,
  command_of, obey, round, waits, returned, main_loop, follow,
}
use sok.Main.Forked.{IsWell, NoChild}
use sok.Main.Rounds.{Stands, main_loop-Stands}

-- No SIGINT comes.
abbrev pub IsQuiet : List Happening → Type 0
IsQuiet [] = Unit {0}
IsQuiet (interrupted ∷ hs) = ⊥
IsQuiet (signalled ∷ hs) = IsQuiet hs
IsQuiet (child_ended pid ∷ hs) = IsQuiet hs

-- What is read, if anything, is no command.
pub record IsIdle (r : Round) : Type 0 where
  pub quiet : IsQuiet r.meanwhile
  pub no_restart : (command_of r.input == codes "restart") ≡ false
  pub no_exit : (command_of r.input == codes "exit") ≡ false

abbrev pub AreIdle : List Round → Type 0
AreIdle [] = Unit {0}
AreIdle (r ∷ rounds) = IsIdle r × AreIdle rounds

quiet-running :
    (hs : List Happening) (s : Server) → IsQuiet hs → (happen_all hs s).running ≡ s.running
unfolding happen
quiet-running [] s quiet = refl
quiet-running (interrupted ∷ hs) s quiet = absurd quiet
quiet-running (signalled ∷ hs) s quiet = quiet-running hs (happen signalled s) quiet
quiet-running (child_ended pid ∷ hs) s quiet = quiet-running hs (happen (child_ended pid) s) quiet

round_idle :
    (moves : ℕ → Bool) (stod : Bytes → Bool) (r : Round) (s : Server)
    → IsIdle r
    → (s' : Server) × (round moves stod r s ≡ goes_on s') × (s'.running ≡ s.running)
unfolding round obey
round_idle moves stod r s idle =
    let t = happen_all r.meanwhile s in
    (
      record t { manager = monitor_children t.manager },
      rw (idle.no_restart, idle.no_exit) refl,
      quiet-running r.meanwhile s idle.quiet,
    )

main_loop_step :
    (moves : ℕ → Bool) (stod : Bytes → Bool) (r : Round) (rounds : List Round) (s s' : Server)
    → s.running ≡ true
    → round moves stod r s ≡ goes_on s'
    → main_loop moves stod (r ∷ rounds) s ≡ main_loop moves stod rounds s'
unfolding main_loop
main_loop_step moves stod r rounds s s' runs went =
    ap
      (λ b.
        if b
        then follow (round moves stod r s) (main_loop moves stod rounds)
        else returned (terminate_all s.manager))
      runs
    ∙ ap (λ o. follow o (main_loop moves stod rounds)) went

-- As long as what is read is no command and no SIGINT comes, the loop goes on, however many turns are
-- taken. (A read that fails leaves the command empty, so turns at the end of the input are such.)
pub main_loop_idle :
    (moves : ℕ → Bool) (stod : Bytes → Bool) (rounds : List Round) (s : Server)
    → s.running ≡ true
    → AreIdle rounds
    → (s' : Server) × (main_loop moves stod rounds s ≡ waits s') × (s'.running ≡ true)
unfolding main_loop
main_loop_idle moves stod [] s runs idle =
    (s, ap (λ b. if b then waits s else returned (terminate_all s.manager)) runs, runs)
main_loop_idle moves stod (r ∷ rounds) s runs (one, rest) =
    let (s₁, went, same) = round_idle moves stod r s one in
    let (s', waiting, runs') = main_loop_idle moves stod rounds s₁ (same ∙ runs) rest in
    (s', main_loop_step moves stod r rounds s s₁ runs went ∙ waiting, runs')

round_exit :
    (moves : ℕ → Bool) (stod : Bytes → Bool) (r : Round) (s : Server)
    → r.input ≡ some (codes "exit")
    → (s' : Server) × (round moves stod r s ≡ goes_on s') × (s'.running ≡ false)
unfolding round obey
round_exit moves stod r s exits =
    let t = happen_all r.meanwhile s in
    (record t { manager = monitor_children t.manager; running = false }, rw exits refl, refl)

main_loop_stopped :
    (moves : ℕ → Bool) (stod : Bytes → Bool) (rounds : List Round) (s : Server)
    → s.running ≡ false
    → main_loop moves stod rounds s ≡ returned (terminate_all s.manager)
unfolding main_loop
main_loop_stopped moves stod [] s stopped =
    ap (λ b. if b then waits s else returned (terminate_all s.manager)) stopped
main_loop_stopped moves stod (r ∷ rounds) s stopped =
    ap
      (λ b.
        if b
        then follow (round moves stod r s) (main_loop moves stod rounds)
        else returned (terminate_all s.manager))
      stopped

main_loop_returns :
    (moves : ℕ → Bool) (stod : Bytes → Bool) (idle : List Round) (r : Round) (later : List Round)
    (s : Server)
    → s.running ≡ true
    → AreIdle idle
    → r.input ≡ some (codes "exit")
    → (m : ForkManager) × (main_loop moves stod (idle ++ r ∷ later) s ≡ returned m)
main_loop_returns moves stod [] r later s runs are_idle exits =
    let (s', went, stopped) = round_exit moves stod r s exits in
    (
      terminate_all s'.manager,
      main_loop_step moves stod r later s s' runs went
          ∙ main_loop_stopped moves stod later s' stopped,
    )
main_loop_returns moves stod (i ∷ idle) r later s runs (one, rest) exits =
    let (s₁, went, same) = round_idle moves stod i s one in
    let (m, ends) = main_loop_returns moves stod idle r later s₁ (same ∙ runs) rest exits in
    (m, main_loop_step moves stod i (idle ++ r ∷ later) s s₁ runs went ∙ ends)

-- The command `exit`, after any turns without a command, ends the loop: `main` returns, whatever would
-- be typed later, and no child is left.
pub main_loop_exit :
    (moves : ℕ → Bool) (stod : Bytes → Bool) (idle : List Round) (r : Round) (later : List Round)
    (s : Server)
    → s.running ≡ true
    → IsWell s
    → AreIdle idle
    → r.input ≡ some (codes "exit")
    → (m : ForkManager) × (main_loop moves stod (idle ++ r ∷ later) s ≡ returned m) × NoChild m
main_loop_exit moves stod idle r later s runs well are_idle exits =
    let (m, ends) = main_loop_returns moves stod idle r later s runs are_idle exits in
    (m, ends, subst Stands ends (main_loop-Stands moves stod (idle ++ r ∷ later) s well))
