-- ===== src/Vector.antt =====
-- Core/mstd/vector.hpp: a buffer of `capacity` elements, of which the first `size` are in use.
-- Allocation does not fail, and sizes stay below 2^52, where `capacity * 1.5` is exact in a double. A
-- value that is pushed is not a reference into the vector itself.
pub mod Growth
pub mod Iterate
mod Tests
use sok.Base.{
  nat_keys, ℕ, suc, ◌+◌, ◌*◌, ◌/◌, ◌-◌, List, [], ◌∷◌, ◌++◌, Option, none, if◌then◌else◌, ltb, ◌==◌,
  take, replicate, set, get_elem?,
}

-- `blank` is what `T()` gives.
pub record Vector {ℓ} (A : Type ℓ) : Type ℓ where
  pub blank : A
  pub buffer : List A
  pub capacity : ℕ
  pub size : ℕ

-- `capacity == 0 ? 1 : ceil(capacity * 1.5)`
unfoldable pub grown : ℕ → ℕ
grown capacity = if capacity == 0 then 1 else (capacity * 3 + 1) / 2

module _ {ℓ} {A : Type ℓ} where
  unfoldable pub empty : A → Vector A
  empty blank = record { blank = blank; buffer = []; capacity = 0; size = 0 }

  -- A new buffer of blanks, to which the elements in use are moved.
  unfoldable pub resize : ℕ → Vector A → Vector A
  resize new_capacity v = record v {
    buffer = take v.size v.buffer ++ replicate (new_capacity - v.size) v.blank;
    capacity = new_capacity;
  }

  -- The assignment to `data[size++]`.
  unfoldable pub put : A → Vector A → Vector A
  put value v = record v { buffer = set v.buffer v.size value; size = suc v.size }

  -- The test in front of it.
  unfoldable pub make_room : Vector A → Vector A
  make_room v = if v.size == v.capacity then resize (grown v.capacity) v else v

  unfoldable pub push_back : A → Vector A → Vector A
  push_back value v = put value (make_room v)

  -- `emplace_back`, for what `T(args...)` makes. It is made on top of the element that stands there,
  -- which is not destroyed.
  unfoldable pub emplace_back : A → Vector A → Vector A
  emplace_back made v = put made (make_room v)

  -- The constructor from an initializer list.
  abbrev pub push_all : List A → Vector A → Vector A
  push_all [] v = v
  push_all (item ∷ init_list) v = push_all init_list (push_back item v)

  -- `operator[]`; `none` is the exception.
  unfoldable pub at : ℕ → Vector A → Option A
  at index v = if ltb index v.size then get_elem? v.buffer index else none
