-- ===== src/FileCache/Links/Last.antt =====
-- The last node of the list of Core/mstd/fileCache.hpp, which eviction takes.
use sok.Base.{
  ℕ, true, List, [], ◌∷◌, Option, none, some, ◌≡◌, refl, ap, arith, ◌==◌, drop_last, last?,
  Bool-cases, inl, inr,
}
use sok.Base.Map.{Map, lookup}
use sok.Base.Text.{Bytes, bytes_keys, bytes_same_iff}
use sok.FileCache.{CachedFile, Node}
use sok.FileCache.Sizes.{Distinct}
use sok.FileCache.Links.{
  listed-lt, Avoids-of_Below, Below, node_of, Linked, listed, Avoids, remove_path, entries,
}

-- The last node of a well linked list.
pub last-listed : (n : Node) (ns : List Node) → last? ns ≡ some n → listed n.path ns ≡ true
last-listed n [] e = cc
last-listed n (x ∷ []) e = ground (arith, bytes_same_iff x.path n.path)
last-listed n (x ∷ y ∷ l) e = ground (arith, last-listed n (y ∷ l) e)

pub last-Linked :
    (m : Map Bytes CachedFile) (n : Node) (ns : List Node)
    → last? ns ≡ some n
    → Linked m ns
    → node_of (lookup n.path m) ≡ some n.id
last-Linked m n [] e l = cc
last-Linked m n (x ∷ []) e l = ground arith
last-Linked m n (x ∷ y ∷ r) e l = last-Linked m n (y ∷ r) e l.1

pub node_of-some :
    (o : Option CachedFile) (i : ℕ) → node_of o ≡ some i → (f : CachedFile) × (o ≡ some f)
node_of-some none i e = cc
node_of-some (some f) i e = (f, refl)

pub drop_last-remove_path :
    (m : Map Bytes CachedFile) (n : Node) (ns : List Node) (b : ℕ)
    → last? ns ≡ some n
    → Below b ns
    → Linked m ns
    → drop_last ns ≡ remove_path n.path ns
drop_last-remove_path m n [] b e w l = refl
drop_last-remove_path m n (x ∷ []) b e w l = ground (arith, bytes_same_iff x.path n.path)
drop_last-remove_path m n (x ∷ y ∷ r) b e w l =
    let (f, found) = node_of-some (lookup n.path m) n.id (last-Linked m n (y ∷ r) e l.1) in
    let below = listed-lt n.path m f (y ∷ r) x.id found w.1 l.1 (last-listed n (y ∷ r) e) in
    elim (Bool-cases (x.path == n.path)) [
      | inl p ↦ absurd (ground (arith, ap (λ q. lookup q m) ((bytes_same_iff x.path n.path).0 p)))
      | inr p ↦ rw p (ap (◌∷◌ x) (drop_last-remove_path m n (y ∷ r) x.id e w.1 l.1))
    ]

pub entries-drop_last :
    (m : Map Bytes CachedFile) (ns : List Node)
    → Linked m ns
    → entries m (drop_last ns) ≡ drop_last (entries m ns)
entries-drop_last m [] l = refl
entries-drop_last m (x ∷ []) l = ground arith
entries-drop_last m (x ∷ y ∷ r) l = ground (arith, entries-drop_last m (y ∷ r) l.1)

lookup-entries_avoided :
    (k : Bytes) (m : Map Bytes CachedFile) (ns : List Node)
    → Avoids k ns
    → lookup k (entries m ns) ≡ none
lookup-entries_avoided k m [] a = refl
lookup-entries_avoided k m (n ∷ ns) a =
    ground (arith, bytes_same_iff n.path k, lookup-entries_avoided k m ns a.1)

-- So no file is held twice.
pub entries-Distinct :
    (m : Map Bytes CachedFile) (ns : List Node) (b : ℕ)
    → Below b ns
    → Linked m ns
    → Distinct (entries m ns)
entries-Distinct m [] b w l = tt
entries-Distinct m (n ∷ ns) b w l =
    let (f, found) = node_of-some (lookup n.path m) n.id l.0 in
    let rest = entries-Distinct m ns n.id w.1 l.1 in
    let alone =
      lookup-entries_avoided n.path m ns
        (Avoids-of_Below n.path m f ns n.id found (ground arith) w.1 l.1) in
    rw found (alone, rest)

pub last-none : (ns : List Node) → last? ns ≡ none → ns ≡ []
last-none [] e = refl
last-none (x ∷ []) e = cc
last-none (x ∷ y ∷ r) e = absurd (ground (arith, last-none (y ∷ r) e))
