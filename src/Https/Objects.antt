-- ===== src/Https/Objects.antt =====
-- The objects of OpenSSL that Core/protocols/https.hpp keeps in `ssl_map`.
use sok.Base.{
  nat_keys, ℕ, suc, Bool, false, not, ◌||◌, List, [], ◌∷◌, none, some, if◌then◌else◌, ◌==◌,
}
use sok.Base.Map.{Map, lookup, insert, erase}

-- `live` are the objects that are allocated, `next` names the next one, and `double_free` tells of
-- a free of an object that was not.
pub record Tls : Type 0 where
  pub ssl_map : Map ℕ ℕ
  pub live : List ℕ
  pub next : ℕ
  pub double_free : Bool

unfoldable pub contains : ℕ → List ℕ → Bool
contains x [] = false
contains x (y ∷ ys) = y == x || contains x ys

unfoldable pub remove : ℕ → List ℕ → List ℕ
remove x [] = []
remove x (y ∷ ys) = let rest = remove x ys in if y == x then rest else y ∷ rest

-- `SSL_new`, `SSL_set_fd`, and the entry in the map.
unfoldable pub ssl_new : ℕ → Tls → Tls
ssl_new client_fd t = record t {
  ssl_map = insert client_fd t.next t.ssl_map;
  live = t.next ∷ t.live;
  next = suc t.next;
}

unfoldable pub ssl_free : ℕ → Tls → Tls
ssl_free ssl t = record t {
  live = remove ssl t.live;
  double_free = t.double_free || not (contains ssl t.live);
}

-- `SSL_shutdown`, `SSL_free` and `ssl_map.erase`, for a descriptor that has an object.
unfoldable pub release : ℕ → Tls → Tls
release client_fd t = elim (lookup client_fd t.ssl_map) [
  | none ↦ t
  | some ssl ↦ (let t' = ssl_free ssl t in record t' { ssl_map = erase client_fd t.ssl_map })
]
