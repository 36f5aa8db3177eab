-- ===== src/Chars.antt =====
-- Core/mstd/string.hpp: `mstd::string`, a buffer of `capacity + 1` chars with its size. The server
-- itself does not use it. `capacity + 1` wraps as `size_t` does, and `make_unique` finds the memory
-- it is asked for.
pub mod Bounds
pub mod Calls
pub mod Parts
mod Tests
use sok.Base.{
  nat_keys, ℕ, zero, suc, ◌-◌, ◌%◌, ◌^◌, min, Bool, true, false, ◌&&◌, List, [], ◌∷◌, ◌++◌, Option,
  none, some, if◌then◌else◌, ltb, leb, ◌==◌, length, take, drop, replicate, set, get_elem?,
}

-- `data_` is `none` where it is the null pointer.
pub record Chars : Type 0 where
  pub buffer : Option (List ℕ)
  pub size : ℕ
  pub capacity : ℕ

-- A call is done, throws `std::out_of_range`, or reads or writes outside a buffer.
pub data Access {ℓ} (A : Type ℓ) : Type ℓ where
  done : A → Access A
  out_of_range : Access A
  invalid : Access A

infixl 5 ◌>>>◌
abbrev pub ◌>>>◌ {ℓ κ} : {A : Type ℓ} {B : Type κ} → Access A → (A → Access B) → Access B
done a >>> f = f a
out_of_range >>> f = out_of_range
invalid >>> f = invalid

-- What a pointer points to, if it is not null.
abbrev pub target {ℓ} : {A : Type ℓ} → Option A → Access A
target none = invalid
target (some a) = done a

-- `std::make_unique<char[]>(capacity + 1)`, and that capacity's chars.
unfoldable pub allocate : ℕ → List ℕ
allocate capacity = replicate (suc capacity % 2 ^ 64) 0

-- `std::memcpy`
unfoldable pub memcpy : List ℕ → List ℕ → ℕ → Access (List ℕ)
memcpy to from n =
    if leb n (length to) && leb n (length from) then done (take n from ++ drop n to) else invalid

-- `data_[index]`, read and written.
unfoldable pub load : ℕ → Chars → Access ℕ
load index s = target s.buffer >>> λ chars. target (get_elem? chars index)

unfoldable pub store : ℕ → ℕ → Chars → Access Chars
store index c s = target s.buffer >>> λ chars.
    if ltb index (length chars)
    then done (record s { buffer = some (set chars index c) })
    else invalid

unfoldable pub empty : Chars
empty = record { buffer = none; size = 0; capacity = 0 }

-- `std::strlen`; a literal ends at its first NUL.
unfoldable pub strlen : List ℕ → Access ℕ
strlen [] = invalid
strlen (c ∷ cs) = let rest = strlen cs in if c == 0 then done 0 else (rest >>> λ n. done (suc n))

-- The constructor from `const char*`.
unfoldable pub of_chars : List ℕ → Access Chars
unfolding strlen allocate memcpy
of_chars s = strlen s >>> λ n. memcpy (allocate n) s (suc n) >>> λ chars.
    done (record { buffer = some chars; size = n; capacity = n })

-- The copy constructor; `operator=` does the same with the string it is given.
unfoldable pub copy : Chars → Access Chars
unfolding allocate memcpy
copy other = target other.buffer >>> λ chars.
    memcpy (allocate other.capacity) chars (suc other.size) >>> λ copied.
    done (record other { buffer = some copied })

-- The assignment of a string to another; of one to itself it does nothing.
unfoldable pub assign : Bool → Chars → Chars → Access Chars
unfolding copy
assign true other s = done s
assign false other s = copy other

-- The moves: the new string, and what is left of the old one.
unfoldable pub move : Chars → Chars × Chars
unfolding empty
move other = (other, empty)

-- `reserve`
unfoldable pub grow : ℕ → Chars → Access Chars
unfolding allocate memcpy
grow new_capacity s = elim s.buffer [
  | none ↦ done (record s { buffer = some (allocate new_capacity); capacity = new_capacity })
  | some chars ↦ memcpy (allocate new_capacity) chars (suc s.size) >>> λ new_data.
      done (record s { buffer = some new_data; capacity = new_capacity })
]

unfoldable pub reserve : ℕ → Chars → Access Chars
unfolding grow
reserve new_capacity s = if ltb s.capacity new_capacity then grow new_capacity s else done s

unfoldable pub resize : ℕ → Chars → Access Chars
unfolding reserve store
resize new_size s = (if ltb s.capacity new_size then reserve new_size s else done s) >>> λ r.
    store new_size 0 (record r { size = new_size })

-- `operator[]`, read and assigned to.
unfoldable pub at : ℕ → Chars → Access ℕ
unfolding load
at index s = if leb s.size index then out_of_range else load index s

unfoldable pub put_char : ℕ → ℕ → Chars → Access Chars
unfolding store
put_char index c s = if leb s.size index then out_of_range else store index c s

-- The `memcpy` of `substr`.
unfoldable pub copy_part : ℕ → ℕ → Chars → Chars → Access Chars
unfolding memcpy
copy_part pos len s result = target result.buffer >>> λ to. target s.buffer >>> λ from.
    memcpy to (drop pos from) len >>> λ chars. done (record result { buffer = some chars })

unfoldable pub substr : ℕ → ℕ → Chars → Access Chars
unfolding empty resize copy_part store
substr pos len s =
    let n = min len (s.size - pos) in
    if ltb s.size pos
    then out_of_range
    else (resize n empty >>> λ result. copy_part pos n s result >>> λ filled. store n 0 filled)

-- `to_std_string`: the chars up to the first NUL.
abbrev pub until_nul : List ℕ → Access (List ℕ)
until_nul [] = invalid
until_nul (c ∷ cs) =
    let rest = until_nul cs in if c == 0 then done [] else (rest >>> λ text. done (c ∷ text))

unfoldable pub to_std_string : Chars → Access (List ℕ)
to_std_string s = target s.buffer >>> until_nul
