-- ===== src/Main/Forked.antt =====
-- What the calls of Core/utils/ForkManager.hpp in `main` of SOK.cpp keep: which child has been given what.
use sok.Base.{
  nat_keys, ℕ, zero, suc, List, [], ◌∷◌, Option, none, some, ◌≡◌, refl, arith, Option-cases, inl,
  inr,
}
use sok.Base.Map.{lookup, lookup-insert}
use sok.Base.Text.{bytes_keys}
use sok.Children.{
  Life, running, ended, ForkManager, create_child_process, monitor_children, sigchld_handler,
  creates, monitors, signals, ends,
}
use sok.Children.Reaping.{IsKnown, Step-IsKnown, monitor-keeps, lookup-reap_all}
use sok.Main.{
  Server, fork_worker, fork_workers, Happening, interrupted, signalled, child_ended, end_child,
  happen, happen_all,
}

-- Every child is known, and has been given the configuration and the ports that `main` has.
pub record IsWell (s : Server) : Type 0 where
  pub known : IsKnown s.manager
  pub current :
      (pid : ℕ) (life : Life)
      → lookup pid s.manager.children ≡ some life
      → lookup pid s.forked ≡ some (record { config = s.config; ports = s.ports })

-- There is no child, running or ended.
abbrev pub NoChild : ForkManager → Type 0
NoChild m = (pid : ℕ) → lookup pid m.children ≡ none

-- Whoever is there afterwards was there before.
abbrev Shrinks : ForkManager → ForkManager → Type 0
Shrinks m m' =
    (pid : ℕ) (life : Life)
    → lookup pid m'.children ≡ some life
    → (before : Life) × (lookup pid m.children ≡ some before)

manager-IsWell :
    (s : Server) (m : ForkManager)
    → IsKnown m
    → Shrinks s.manager m
    → IsWell s
    → IsWell (record s { manager = m })
manager-IsWell s m known shrinks well = record {
  known = known;
  current = λ pid life there.
      (let (before, found) = shrinks pid life there in well.current pid before found);
}

pub NoChild-IsWell : (s : Server) → NoChild s.manager → IsWell s
NoChild-IsWell s gone = record {
  known = λ pid life there. absurd (ground (arith, gone pid));
  current = λ pid life there. absurd (ground (arith, gone pid));
}

pub monitor_children-IsWell :
    (s : Server) → IsWell s → IsWell (record s { manager = monitor_children s.manager })
unfolding monitor_children
monitor_children-IsWell s well =
    manager-IsWell s (monitor_children s.manager)
      (Step-IsKnown s.manager _ (monitors s.manager) well.known)
      (λ pid life there.
        (life, (monitor-keeps pid life s.manager.child_pids s.manager.children there).0))
      well

end_child-keeps :
    (pid : ℕ) (o : Option Life) (m : ForkManager)
    → lookup pid m.children ≡ o
    → IsKnown m
    → IsKnown (end_child pid o m) × Shrinks m (end_child pid o m)
unfolding end_child
end_child-keeps pid (some running) m runs known = (
  Step-IsKnown m _ (ends pid m runs) known,
  λ q life there. elim (Option-cases (lookup q m.children)) [
    | inl gone ↦
        absurd (ground (arith, lookup-insert pid q ended m.children, nat_keys.same_iff pid q))
    | inr found ↦ found
  ],
)
end_child-keeps pid (some ended) m over known = (known, λ q life there. (life, there))
end_child-keeps pid none m gone known = (known, λ q life there. (life, there))

happen-IsWell : (h : Happening) (s : Server) → IsWell s → IsWell (happen h s)
unfolding happen sigchld_handler
happen-IsWell interrupted s well = record { known = well.known; current = well.current }
happen-IsWell signalled s well =
    manager-IsWell s (sigchld_handler s.manager)
      (Step-IsKnown s.manager _ (signals s.manager) well.known)
      (λ pid life there. elim (Option-cases (lookup pid s.manager.children)) [
        | inl gone ↦ absurd (ground (arith, lookup-reap_all pid s.manager.children gone))
        | inr found ↦ found
      ])
      well
happen-IsWell (child_ended pid) s well =
    let (known, shrinks) =
      end_child-keeps pid (lookup pid s.manager.children) s.manager refl well.known in
    manager-IsWell s (end_child pid (lookup pid s.manager.children) s.manager) known shrinks well

pub happen_all-IsWell : (hs : List Happening) (s : Server) → IsWell s → IsWell (happen_all hs s)
happen_all-IsWell [] s well = well
happen_all-IsWell (h ∷ hs) s well = happen_all-IsWell hs (happen h s) (happen-IsWell h s well)

fork_worker-IsWell : (forked : Option ℕ) (s : Server) → IsWell s → IsWell (fork_worker forked s)
unfolding fork_worker create_child_process
fork_worker-IsWell none s well = record { known = well.known; current = well.current }
fork_worker-IsWell (some pid) s well = record {
  known = Step-IsKnown s.manager _ (creates (some pid) s.manager) well.known;
  current = λ q life there. ground (
    arith,
    lookup-insert pid q running s.manager.children,
    lookup-insert pid q (record { config = s.config; ports = s.ports }) s.forked,
    well.current q life,
  );
}

pub fork_workers-IsWell :
    (n : ℕ) (forks : ℕ → Option ℕ) (s : Server) → IsWell s → IsWell (fork_workers n forks s)
unfolding fork_workers
fork_workers-IsWell zero forks s well = well
fork_workers-IsWell (suc n) forks s well =
    fork_workers-IsWell n (λ i. forks (suc i)) (fork_worker (forks 0) s)
      (fork_worker-IsWell (forks 0) s well)
