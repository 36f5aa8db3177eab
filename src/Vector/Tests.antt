-- ===== src/Vector/Tests.antt =====
-- Core/mstd/vector.hpp on three elements, for which the buffer moves three times.
use sok.Base.{ℕ, suc, List, [], ◌∷◌, some, ◌≡◌, get_elem?}
use sok.Vector.{empty, push_all, at}
use sok.Vector.Iterate.{begin, traverse, traverse-push_all}

abbrev items : List ℕ
items = 7 ∷ 8 ∷ 9 ∷ []

traverse-push_all_example :
    ((i : ℕ) → at i (push_all items (empty 0)) ≡ get_elem? items i)
    × (let v = push_all items (empty 0) in traverse (suc v.size) (begin v) v ≡ some items)
traverse-push_all_example = traverse-push_all 0 items
