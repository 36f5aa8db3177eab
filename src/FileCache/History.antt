-- ===== src/FileCache/History.antt =====
-- Histories of calls of the cache of Core/mstd/fileCache.hpp, and what later calls see of earlier.
use sok.Base.{nat_keys, ℕ, ◌^◌, ◌<◌, List, [], ◌∷◌, Option, some, ◌≡◌, refl, ap, ◌∙◌, arith, ◌>>=◌}
use sok.Base.Text.{Bytes, bytes_keys}
use sok.FileCache.{FileCache, FileView, init, get, set_max_size, get_file_size}
use sok.FileCache.Invariant.{view, IsValid}
use sok.FileCache.Refine.{get-Refines, set_max_size-Refines, init-IsValid}
use sok.FileCache.Spec.{Lru, spec_get, spec_set_max_size, spec_get-max_size}

pub data Call : Type 0 where
  gets : Bytes → FileView → Call
  sets_max_size : ℕ → Call

pub step : FileCache → Call → Option FileCache
step c (gets path v) = get path v c >>= λ r. some r.0
step c (sets_max_size n) = set_max_size n c

pub run : FileCache → List Call → Option FileCache
run c [] = some c
run c (call ∷ calls) = step c call >>= λ c'. run c' calls

pub spec_step : Lru → Call → Lru
spec_step s (gets path v) = (spec_get path v s).0
spec_step s (sets_max_size n) = spec_set_max_size n s

pub spec_run : Lru → List Call → Lru
spec_run s [] = s
spec_run s (call ∷ calls) = spec_run (spec_step s call) calls

-- Every budget, and every size that `stat` reports, is below half the range of `size_t`.
abbrev pub Small : Call → Type 0
Small (gets path v) = get_file_size v.sized < 2 ^ 63
Small (sets_max_size n) = n < 2 ^ 63

abbrev pub AllSmall : List Call → Type 0
AllSmall [] = Unit {0}
AllSmall (call ∷ calls) = Small call × AllSmall calls

-- What a step returns, and that the budget stays small.
step-Refines :
    (call : Call) (c : FileCache)
    → IsValid c
    → c.max_size < 2 ^ 63
    → Small call
    → (c' : FileCache) × (step c call ≡ some c')
      × IsValid c'
      × (c'.max_size < 2 ^ 63)
      × (view c' ≡ spec_step (view c) call)
unfolding step spec_step spec_set_max_size
step-Refines (gets path v) c valid budget small =
    let (c', r, run, valid', seen, _) = get-Refines path v c valid (omega arith) in
    (
      c',
      rw run,
      valid',
      omega (arith, ap (λ s. s.max_size) seen, spec_get-max_size path v (view c)),
      seen,
    )
step-Refines (sets_max_size n) c valid budget small =
    let (c', run, valid', seen) = set_max_size-Refines n c valid in
    (c', run, valid', let kept : c'.max_size ≡ n = ap (λ s. s.max_size) seen in omega arith, seen)

run-Refines_from :
    (calls : List Call) (c : FileCache)
    → IsValid c
    → c.max_size < 2 ^ 63
    → AllSmall calls
    → (c' : FileCache) × (run c calls ≡ some c') × IsValid c' × (view c' ≡ spec_run (view c) calls)
unfolding run spec_run
run-Refines_from [] c valid budget small = (c, refl, valid, refl)
run-Refines_from (call ∷ calls) c valid budget small =
    let (c', stepped, valid', budget', seen) = step-Refines call c valid budget small.0 in
    let (c'', ran, valid'', seen') = run-Refines_from calls c' valid' budget' small.1 in
    (c'', rw stepped ran, valid'', seen' ∙ ap (λ s. spec_run s calls) seen)

-- Every history of calls on a new cache returns, ends in a valid cache, and has done what the
-- specification does, if budgets and file sizes stay below 2 ^ 63.
pub run-Refines :
    (max_size : ℕ) (calls : List Call)
    → max_size < 2 ^ 63
    → AllSmall calls
    → (c : FileCache) × (run (init max_size) calls ≡ some c)
      × IsValid c
      × (view c ≡ spec_run (view (init max_size)) calls)
unfolding init
run-Refines max_size calls budget small =
    run-Refines_from calls (init max_size) (init-IsValid max_size) budget small
