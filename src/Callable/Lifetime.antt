-- ===== src/Callable/Lifetime.antt =====
-- How long a `Function` of Core/mstd/function.hpp can be called.
use sok.Base.{
  nat_keys, ℕ, List, [], ◌∷◌, Option, none, some, if◌then◌else◌, ◌==◌, ◌≡◌, refl, ◌∙◌, ap,
}
use sok.Base.Map.{Map, lookup, insert, erase, lookup-insert, lookup-erase}
use sok.Callable.{
  returned, from_temporary, from_variable, through, invoke, call, Event, assigned, gone,
}

module _ {ℓ κ} {Args : Type ℓ} {R : Type κ} where
  abbrev pub run : List (Event Args R) → Map ℕ (Args → R) → Map ℕ (Args → R)
  run [] variables = variables
  run (assigned address f ∷ events) variables = run events (insert address f variables)
  run (gone address ∷ events) variables = run events (erase address variables)

  -- What one variable holds after the events, if it lives.
  abbrev pub last_assigned : ℕ → List (Event Args R) → Option (Args → R) → Option (Args → R)
  last_assigned p [] o = o
  last_assigned p (assigned address f ∷ events) o =
      last_assigned p events (if address == p then some f else o)
  last_assigned p (gone address ∷ events) o =
      last_assigned p events (if address == p then none else o)

  lookup-run :
      (p : ℕ) (events : List (Event Args R)) (variables : Map ℕ (Args → R))
      → lookup p (run events variables) ≡ last_assigned p events (lookup p variables)
  lookup-run p [] variables = refl
  lookup-run p (assigned address f ∷ events) variables =
      lookup-run p events (insert address f variables)
      ∙ ap (last_assigned p events) (lookup-insert address p f variables)
  lookup-run p (gone address ∷ events) variables =
      lookup-run p events (erase address variables)
      ∙ ap (last_assigned p events) (lookup-erase address p variables)

  -- A `Function` that is made of a temporary gives what the temporary gave, whatever befalls any
  -- variable. One that is made of a variable, also of a variable that is a `Function`, gives what was
  -- assigned to the variable last, and dangles when the variable is gone.
  pub call-run :
      (f : Args → R) (p : ℕ) (events : List (Event Args R)) (variables : Map ℕ (Args → R))
      (args : Args)
      → (call (from_temporary f) (run events variables) args ≡ returned (f args))
        × (call (from_variable p) (run events variables) args
            ≡ through (last_assigned p events (lookup p variables)) args)
  unfolding call from_temporary from_variable invoke
  call-run f p events variables args =
      (refl, ap (λ o. through o args) (lookup-run p events variables))
