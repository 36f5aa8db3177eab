-- ===== src/Yaml/Cursor.antt =====
-- The variables of `parseFile` in Core/mstd/yaml.hpp, and what it does through its pointers.
-- `moves n` says whether `push_back` on a vector of `n` elements moves them to another buffer, and
-- `stod` whether the library's function accepts a text; both belong to the C++ library. Maps and
-- vectors inside an element do not move with it.
use sok.Base.{
  nat_keys, ℕ, ◌^◌, Bool, ◌&&◌, ◌||◌, List, [], ◌∷◌, ◌++◌, Option, none, some, if◌then◌else◌, ◌==◌,
  ltb, drop_last, last?, map, ◌>>=◌,
}
use sok.Base.Int.{pos}
use sok.Base.Text.{Bytes, bytes_keys, codes, is_empty}
use sok.Http.Decimal.{value_from}
use sok.Yaml.{Value, text, int, double, bool, Fields, end, Items, empty, item, find}
use sok.Yaml.Lines.{trim, consists_of, is_digit, is_digit_or_dot}
use sok.Yaml.Tree.{
  Place, object_at, element_at, assign, emplace, push_back, count, update, update_key, resolve,
  objects_in, update_objects, is_below, is_element_of,
}

-- What `parseFile` throws; the last two come from `stoi` and `stod`.
pub data ParseError : Type 0 where
  no_parent_key : ParseError
  invalid_item invalid_line : Bytes → ParseError
  out_of_range invalid_argument : Bytes → ParseError

-- A part of the parser is done, has thrown, or has used a pointer that dangles.
pub data Outcome {ℓ} (A : Type ℓ) : Type ℓ where
  done : A → Outcome A
  throws : ParseError → Outcome A
  dangles : Outcome A

infixl 5 ◌>>>◌
abbrev pub ◌>>>◌ {ℓ κ} : {A : Type ℓ} {B : Type κ} → Outcome A → (A → Outcome B) → Outcome B
done a >>> f = f a
throws e >>> f = throws e
dangles >>> f = dangles

-- Where `none` is no answer, a pointer does not point into the tree.
abbrev pub or_dangles {ℓ} : {A : Type ℓ} → Option A → Outcome A
or_dangles none = dangles
or_dangles (some a) = done a

-- A pointer into the tree; `none` if it dangles.
abbrev pub Pointer : Type 0
Pointer = Option Place

-- The vector under a key of the map at a place, with the indentation from which its items start:
-- `array_stack` and `array_indent_stack` grow and shrink together.
pub record OpenArray : Type 0 where
  pub array : Option (Place × Bytes)
  pub indent : ℕ

-- The variables of the loop. Both stacks have their back first.
pub record Parser : Type 0 where
  pub root : Fields
  pub stack : List Pointer
  pub previous_indent : ℕ
  pub array_stack : List OpenArray

-- `stod` and `stoi` as they are called.
unfoldable pub stoi : Bytes → Outcome Value
stoi value =
    let n = value_from 0 value in
    if ltb n (2 ^ 31) then done (int (pos n)) else throws (out_of_range value)

-- A value that is no list.
unfoldable pub scalar : (Bytes → Bool) → Bytes → Outcome Value
unfolding stoi consists_of is_digit is_digit_or_dot
scalar stod value =
    if value == codes "true" || value == codes "false"
    then done (bool (value == codes "true"))
    else if consists_of is_digit value
    then stoi value
    else if consists_of is_digit_or_dot value
    then (if stod value then done (double value) else throws (invalid_argument value))
    else done (text value)

-- `value.front() == '[' && value.back() == ']'`, and the text between.
unfoldable pub inner : Bytes → Option Bytes
inner [] = none
inner (c ∷ cs) = elim (last? (c ∷ cs)) [
  | none ↦ none
  | some back ↦ if c == b'[' && back == b']' then some (drop_last cs) else none
]

unfoldable pub collect : List Bytes → Items
collect [] = empty
collect (elem ∷ elems) =
    let rest = collect elems in if is_empty (trim elem) then rest else item (text (trim elem)) rest

-- Pointers to what a change has destroyed or moved dangle.
unfoldable pub invalidate : (Place → Bool) → List Pointer → List Pointer
invalidate gone = map (λ o. o >>= λ place. if gone place then none else some place)

unfoldable pub invalidate_array : (Place → Bool) → OpenArray → OpenArray
invalidate_array gone a = record a {
  array = a.array >>= λ (place, key).
      if gone (place ++ object_at key ∷ []) then none else some (place, key);
}

-- `stack.back()`
unfoldable pub top : Parser → Outcome Place
top s = elim s.stack [ [] ↦ dangles | pointer ∷ below ↦ or_dangles pointer ]

-- `(*stack.back())[key] = v`: what the key held before is destroyed.
unfoldable pub store : Bytes → Value → Parser → Outcome Parser
unfolding top
store key v s = top s >>> λ place.
    or_dangles (update place (λ m. some (assign key v m)) s.root) >>> λ root. done (record s {
      root = root;
      stack = invalidate (is_below place key) s.stack;
      array_stack = map (invalidate_array (is_below place key)) s.array_stack;
    })

-- `stack.back()->emplace(key, v)`
unfoldable pub store_new : Bytes → Value → Parser → Outcome Parser
unfolding top
store_new key v s = top s >>> λ place.
    or_dangles (update place (λ m. some (emplace key v m)) s.root) >>> λ root.
    done (record s { root = root })

-- `stack.push_back(&(*stack.back())[key])`
unfoldable pub enter : Bytes → Parser → Outcome Parser
unfolding top
enter key s =
    top s >>> λ place. done (record s { stack = some (place ++ object_at key ∷ []) ∷ s.stack })

-- `array_stack.push_back(&(*stack.back())[key])`
unfoldable pub open_array : Bytes → ℕ → Parser → Outcome Parser
unfolding top
open_array key indent s = top s >>> λ place. done (record s {
  array_stack = (record { array = some (place, key); indent = indent }) ∷ s.array_stack;
})

-- `array_stack.back()->push_back(obj)` and `stack.push_back(&array_stack.back()->back())`. If the
-- elements move, the pointers to them dangle.
unfoldable pub add_element : (ℕ → Bool) → Place → Bytes → Parser → Outcome Parser
add_element moves place key s =
    or_dangles (resolve place s.root >>= λ m. objects_in (find key m)) >>> λ os.
    or_dangles
      (update place (update_key key (update_objects (λ os. some (push_back end os)))) s.root)
    >>> λ root.
        let old = s.stack in
        let kept = if moves (count os) then invalidate (is_element_of place key) old else old in
        done
          (record s { root = root; stack = some (place ++ element_at key (count os) ∷ []) ∷ kept })
