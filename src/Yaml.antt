-- ===== src/Yaml.antt =====
-- Core/mstd/yaml.hpp: the values that a configuration holds, and `YamlReader`'s access to them.
pub mod Lines
pub mod Tree
pub mod Cursor
pub mod Parse
pub mod Trimming
pub mod Places
pub mod Print
pub mod Steps
pub mod Written
pub mod Reading
pub mod RoundTrip
pub mod OneLine
pub mod Numerals
mod Tests
use sok.Base.{
  nat_keys, Bool, ◌&&◌, List, [], ◌∷◌, Option, none, some, if◌then◌else◌, ◌==◌, drop_last, last?,
  ◌⊎◌, inl, inr, ◌≡◌, refl,
}
use sok.Base.Int.{ℤ}
use sok.Base.Text.{Bytes, bytes_keys, codes}

-- A `std::any` of the reader, and the maps and vectors that hold them. A `double` is kept as the
-- text that `stod` reads.
mutual
  pub data Value : Type 0 where
    text : Bytes → Value
    int : ℤ → Value
    double : Bytes → Value
    bool : Bool → Value
    object : Fields → Value
    objects : Objects → Value
    items : Items → Value

  pub data Fields : Type 0 where
    end : Fields
    field : Bytes → Value → Fields → Fields

  pub data Objects : Type 0 where
    none_left : Objects
    next : Fields → Objects → Objects

  pub data Items : Type 0 where
    empty : Items
    item : Value → Items → Items

-- The errors that the readers throw, with the key.
pub data Error : Type 0 where
  key_not_found type_mismatch object_invalid array_not_found array_unsupported : Bytes → Error

pub data Result {ℓ} (A : Type ℓ) : Type ℓ where
  ok : A → Result A
  throws : Error → Result A

infixl 5 ◌>>=◌
abbrev pub ◌>>=◌ {ℓ κ} : {A : Type ℓ} {B : Type κ} → Result A → (A → Result B) → Result B
ok a >>= f = f a
throws e >>= f = throws e

-- To split on a result and keep the equation.
pub Result-cases {ℓ} :
    {A : Type ℓ} (r : Result A) → ((a : A) × (r ≡ ok a)) ⊎ ((e : Error) × (r ≡ throws e))
Result-cases (ok a) = inl (a, refl)
Result-cases (throws e) = inr (e, refl)

-- `data.find(key)`
unfoldable pub find : Bytes → Fields → Option Value
find key end = none
find key (field k v fs) = if k == key then some v else find key fs

-- A text in quotes loses them.
unfoldable pub unquote : Bytes → Bytes
unquote [] = []
unquote (c ∷ cs) = elim (last? (c ∷ cs)) [
  | none ↦ c ∷ cs
  | some back ↦ if c == b'"' && back == b'"' then drop_last cs else c ∷ cs
]

-- `getValue<std::string>`
unfoldable pub text_of : Bytes → Value → Result Bytes
text_of key (text t) = ok (unquote t)
text_of key _ = throws (type_mismatch key)

unfoldable pub get_text : Fields → Bytes → Result Bytes
unfolding find text_of
get_text fs key = elim (find key fs) [ none ↦ throws (key_not_found key) | some v ↦ text_of key v ]

-- `getValue<int>`
unfoldable pub int_of : Bytes → Value → Result ℤ
int_of key (int n) = ok n
int_of key _ = throws (type_mismatch key)

unfoldable pub get_int : Fields → Bytes → Result ℤ
unfolding find int_of
get_int fs key = elim (find key fs) [ none ↦ throws (key_not_found key) | some v ↦ int_of key v ]

-- `getObject`
unfoldable pub object_of : Bytes → Value → Result Fields
object_of key (object fs) = ok fs
object_of key _ = throws (object_invalid key)

unfoldable pub get_object : Fields → Bytes → Result Fields
unfolding find object_of
get_object fs key = elim (find key fs) [
  | none ↦ throws (object_invalid key)
  | some v ↦ object_of key v
]

-- The readers of an array: of its maps, or of maps that hold its other elements under "value".
unfoldable pub object_readers : Objects → List Fields
object_readers none_left = []
object_readers (next fs rest) = fs ∷ object_readers rest

unfoldable pub item_reader : Value → Fields
item_reader (object fs) = fs
item_reader v = field (codes "value") v end

unfoldable pub item_readers : Items → List Fields
unfolding item_reader
item_readers empty = []
item_readers (item v rest) = item_reader v ∷ item_readers rest

unfoldable pub array_of : Bytes → Value → Result (List Fields)
unfolding object_readers item_readers
array_of key (objects os) = ok (object_readers os)
array_of key (items is) = ok (item_readers is)
array_of key _ = throws (array_unsupported key)

unfoldable pub get_array : Fields → Bytes → Result (List Fields)
unfolding find array_of
get_array fs key = elim (find key fs) [
  | none ↦ throws (array_not_found key)
  | some v ↦ array_of key v
]
