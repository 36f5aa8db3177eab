-- ===== src/Callable.antt =====
-- Core/mstd/function.hpp: `Function` and `bind`. A temporary that a `Function` is made of moves into it.
-- A variable does not: there `F` is a reference type, and so is the member `f_`. The variables that
-- live are a store.
pub mod Lifetime
mod Tests
use sok.Base.{nat_keys, ℕ, Bool, true, false, List, [], ◌∷◌, Option, none, some}
use sok.Base.Map.{Map, lookup, insert, erase}

-- `CallableImpl<F>`, for `F` a type of its own and for `F` a reference.
pub data CallableImpl {ℓ κ} (Args : Type ℓ) (R : Type κ) : Type (ℓ ⊔ κ) where
  owned : (Args → R) → CallableImpl Args R
  refers : ℕ → CallableImpl Args R

-- A null pointer is `none`.
abbrev pub Function {ℓ κ} : Type ℓ → Type κ → Type (ℓ ⊔ κ)
Function Args R = Option (CallableImpl Args R)

-- What a call gives: a result, the exception of an empty `Function`, or it goes through a reference to a
-- variable that is gone.
pub data Answer {ℓ} (R : Type ℓ) : Type ℓ where
  returned : R → Answer R
  throws dangles : Answer R

module _ {ℓ κ} {Args : Type ℓ} {R : Type κ} where
  -- The constructor for a temporary, and for a variable at an address.
  unfoldable pub from_temporary : (Args → R) → Function Args R
  from_temporary f = some (owned f)

  unfoldable pub from_variable : ℕ → Function Args R
  from_variable address = some (refers address)

  -- A call through a reference, for what the variable holds, if it lives.
  unfoldable pub through : Option (Args → R) → Args → Answer R
  through none args = dangles
  through (some f) args = returned (f args)

  -- `invoke`, where the variables hold these callables.
  unfoldable pub invoke : CallableImpl Args R → Map ℕ (Args → R) → Args → Answer R
  invoke (owned f) variables args = returned (f args)
  invoke (refers address) variables args = through (lookup address variables) args

  -- `operator()`
  unfoldable pub call : Function Args R → Map ℕ (Args → R) → Args → Answer R
  call none variables args = throws
  call (some callable) variables args = invoke callable variables args

  -- `operator bool`
  unfoldable pub is_set : Function Args R → Bool
  is_set none = false
  is_set (some callable) = true

  -- `bind`, of copies of the function and of its arguments. The lambda's own arguments stand in
  -- `invoke_impl` in front of the last parameter, where none can be deduced, so that it takes none.
  unfoldable pub bind : (Args → R) → Args → Unit {0} → R
  bind f bound_args remaining = f bound_args

-- What befalls a variable: an assignment, and the end of its life.
pub data Event {ℓ κ} (Args : Type ℓ) (R : Type κ) : Type (ℓ ⊔ κ) where
  assigned : ℕ → (Args → R) → Event Args R
  gone : ℕ → Event Args R
