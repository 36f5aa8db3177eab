-- ===== src/Callable/Tests.antt =====
-- Core/mstd/function.hpp with a variable that is assigned, and ends.
use sok.Base.{nat_keys, ℕ, ◌+◌, ◌*◌, [], ◌∷◌, none, ◌≡◌, refl}
use sok.Callable.{
  returned, throws, dangles, from_variable, through, invoke, call, bind, assigned, gone,
}
use sok.Callable.Lifetime.{run}

after_an_assignment :
    call (from_variable 3) (run (assigned 3 (λ n. n * 5) ∷ []) ((3, λ (n : ℕ). n * 2) ∷ [])) 4
    ≡ returned 20
unfolding call from_variable invoke through
after_an_assignment = refl

after_its_end : call (from_variable 3) (run (gone 3 ∷ []) ((3, λ (n : ℕ). n * 2) ∷ [])) 4 ≡ dangles
unfolding call from_variable invoke through
after_its_end = refl

empty_throws : call {Args = ℕ} {R = ℕ} none [] 4 ≡ throws
unfolding call
empty_throws = refl

bound : bind (λ (n : ℕ). n + 1) 4 tt ≡ 5
unfolding bind
bound = refl
