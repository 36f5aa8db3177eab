-- ===== src/Yaml/Places.antt =====
-- How the changes of a tree of Core/mstd/yaml.hpp show at the place that was changed.
use sok.Base.{nat_keys, [], ◌∷◌, some, ◌≡◌, refl, arith}
use sok.Base.Text.{Bytes, bytes_keys}
use sok.Yaml.{Value, objects, Fields, end, field, Objects, none_left, next, find}
use sok.Yaml.Tree.{
  assign, push_back, count, element_at, update_element, update_objects, update_key, update,
}

pub find-assign : (k : Bytes) (v : Value) (m : Fields) → find k (assign k v m) ≡ some v
unfolding find assign
find-assign k v end = ground (arith, bytes_keys.same_iff k k)
find-assign k v (field j w m) =
    ground (arith, bytes_keys.same_iff k k, bytes_keys.same_iff j k, find-assign k v m)

pub assign-assign :
    (k : Bytes) (v w : Value) (m : Fields) → assign k w (assign k v m) ≡ assign k w m
unfolding assign
assign-assign k v w end = ground (arith, bytes_keys.same_iff k k)
assign-assign k v w (field j u m) =
    ground (arith, bytes_keys.same_iff k k, bytes_keys.same_iff j k, assign-assign k v w m)

update_element-push_back :
    (f : Fields → Fields) (e : Fields) (os : Objects)
    → update_element (count os) (λ m. some (f m)) (push_back e os) ≡ some (push_back (f e) os)
unfolding update_element push_back count
update_element-push_back f e none_left = refl
update_element-push_back f e (next m os) = rw (update_element-push_back f e os)

-- A change of the last element of a vector.
pub update-last :
    (k : Bytes) (f : Fields → Fields) (e : Fields) (os : Objects) (m : Fields)
    → update
        (element_at k (count os) ∷ [])
        (λ m. some (f m))
        (assign k (objects (push_back e os)) m)
      ≡ some (assign k (objects (push_back (f e) os)) m)
unfolding update update_key update_objects
update-last k f e os m = rw (
  find-assign k (objects (push_back e os)) m,
  update_element-push_back f e os,
  assign-assign k (objects (push_back e os)) (objects (push_back (f e) os)) m,
)

-- A new element of a vector.
pub update-push_back :
    (k : Bytes) (e : Fields) (os : Objects) (m : Fields)
    → update []
        (update_key k (update_objects (λ os. some (push_back e os))))
        (assign k (objects os) m)
      ≡ some (assign k (objects (push_back e os)) m)
unfolding update update_key update_objects
update-push_back k e os m =
    rw (find-assign k (objects os) m, assign-assign k (objects os) (objects (push_back e os)) m)
