-- ===== src/Yaml/Tree.antt =====
-- The maps and vectors that `parseFile` of Core/mstd/yaml.hpp grows, and the pointers into them.
-- A pointer is the way from the root to what it points at.
use sok.Base.{
  nat_keys, ℕ, zero, suc, Bool, false, ◌&&◌, List, [], ◌∷◌, Option, none, some, if◌then◌else◌, ◌==◌,
  ◌>>=◌,
}
use sok.Base.Text.{Bytes, bytes_keys}
use sok.Yaml.{Value, object, objects, Fields, end, field, Objects, none_left, next, find}

-- `m[key] = v`
unfoldable pub assign : Bytes → Value → Fields → Fields
assign key v end = field key v end
assign key v (field k w fs) =
    let later = field k w (assign key v fs) in if k == key then field k v fs else later

-- `m.emplace(key, v)`: an entry that is there stays.
unfoldable pub emplace : Bytes → Value → Fields → Fields
emplace key v end = field key v end
emplace key v (field k w fs) =
    let later = field k w (emplace key v fs) in if k == key then field k w fs else later

-- `vec.push_back(m)`
unfoldable pub push_back : Fields → Objects → Objects
push_back m none_left = next m none_left
push_back m (next n os) = next n (push_back m os)

unfoldable pub count : Objects → ℕ
count none_left = 0
count (next m os) = suc (count os)

-- Into the map that a key holds, or into an element of the vector that it holds.
pub data Way : Type 0 where
  object_at : Bytes → Way
  element_at : Bytes → ℕ → Way

abbrev pub Place : Type 0
Place = List Way

unfoldable pub update_element : ℕ → (Fields → Option Fields) → Objects → Option Objects
update_element i f none_left = none
update_element zero f (next m os) = f m >>= λ m'. some (next m' os)
update_element (suc i) f (next m os) = update_element i f os >>= λ os'. some (next m os')

-- What a value becomes if the map or the vector in it is changed; `none` if it has none.
unfoldable pub update_object : (Fields → Option Fields) → Value → Option Value
update_object f (object m) = f m >>= λ m'. some (object m')
update_object f _ = none

unfoldable pub update_objects : (Objects → Option Objects) → Value → Option Value
update_objects f (objects os) = f os >>= λ os'. some (objects os')
update_objects f _ = none

-- The change of what stands under a key.
unfoldable pub update_key : Bytes → (Value → Option Value) → Fields → Option Fields
update_key key f m = find key m >>= λ v. f v >>= λ v'. some (assign key v' m)

-- The change of the map at a place.
unfoldable pub update : Place → (Fields → Option Fields) → Fields → Option Fields
update [] f m = f m
update (object_at key ∷ place) f m = update_key key (update_object (update place f)) m
update (element_at key i ∷ place) f m =
    update_key key (update_objects (update_element i (update place f))) m

unfoldable pub element : ℕ → Objects → Option Fields
element i none_left = none
element zero (next m os) = some m
element (suc i) (next m os) = element i os

unfoldable pub object_in : Option Value → Option Fields
object_in (some (object m)) = some m
object_in _ = none

unfoldable pub objects_in : Option Value → Option Objects
objects_in (some (objects os)) = some os
objects_in _ = none

-- The map at a place.
unfoldable pub resolve : Place → Fields → Option Fields
unfolding object_in objects_in
resolve [] m = some m
resolve (object_at key ∷ place) m = object_in (find key m) >>= λ m'. resolve place m'
resolve (element_at key i ∷ place) m =
    objects_in (find key m) >>= λ os. element i os >>= λ m'. resolve place m'

unfoldable pub same_way : Way → Way → Bool
same_way (object_at k) (object_at l) = k == l
same_way (object_at k) (element_at l j) = false
same_way (element_at k i) (object_at l) = false
same_way (element_at k i) (element_at l j) = k == l && i == j

unfoldable pub key_of : Way → Bytes
key_of (object_at k) = k
key_of (element_at k i) = k

-- The place lies in the value that the map at the first place has under the key.
unfoldable pub is_below : Place → Bytes → Place → Bool
unfolding key_of same_way
is_below [] key [] = false
is_below [] key (w ∷ place) = key_of w == key
is_below (w ∷ at) key [] = false
is_below (w ∷ at) key (x ∷ place) = same_way w x && is_below at key place

unfoldable pub is_element : Bytes → Place → Bool
is_element key (element_at k i ∷ []) = k == key
is_element key _ = false

-- The place is an element of the vector that the map at the first place has under the key.
unfoldable pub is_element_of : Place → Bytes → Place → Bool
unfolding is_element same_way
is_element_of [] key place = is_element key place
is_element_of (w ∷ at) key [] = false
is_element_of (w ∷ at) key (x ∷ place) = same_way w x && is_element_of at key place
