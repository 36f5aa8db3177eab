-- ===== src/FileCache/Links.antt =====
-- How the list of nodes and the map of Core/mstd/fileCache.hpp hang together: each node's path is
-- cached under an entry whose iterator is that node, and each cached path has its node.
pub mod Last
use sok.Base.{
  ℕ, ◌≤◌, ◌<◌, Bool, true, false, ◌||◌, List, [], ◌∷◌, Option, none, some, ◌≡◌, ◌≢◌, refl, sym, ap,
  arith, if◌then◌else◌, ◌==◌, drop_last, last?, Bool-cases, inl, inr,
}
use sok.Base.Map.{Map, lookup, insert, erase, lookup-insert_ne, lookup-erase_ne}
use sok.Base.Text.{Bytes, bytes_keys, bytes_same_iff}
use sok.FileCache.{CachedFile, Node, list_erase}
use sok.FileCache.Sizes.{Distinct}
use sok.FileCache.Spec.{File, file_of}

-- Identities fall along the list and stay under the next one.
abbrev pub Below : ℕ → List Node → Type 0
Below b [] = Unit {0}
Below b (n ∷ ns) = (n.id < b) × Below n.id ns

abbrev pub node_of : Option CachedFile → Option ℕ
node_of none = none
node_of (some f) = some f.lru_it

-- Each node's path is cached, with that node as its iterator.
abbrev pub Linked : Map Bytes CachedFile → List Node → Type 0
Linked m [] = Unit {0}
Linked m (n ∷ ns) = (node_of (lookup n.path m) ≡ some n.id) × Linked m ns

abbrev pub listed : Bytes → List Node → Bool
listed k [] = false
listed k (n ∷ ns) = n.path == k || listed k ns

-- No node holds the path.
abbrev pub Avoids : Bytes → List Node → Type 0
Avoids k [] = Unit {0}
Avoids k (n ∷ ns) = (n.path ≢ k) × Avoids k ns

abbrev pub remove_path : Bytes → List Node → List Node
remove_path k [] = []
remove_path k (n ∷ ns) = let rest = remove_path k ns in if n.path == k then rest else n ∷ rest

-- The cached files in the order of the list.
abbrev pub entry_at : Bytes → Option CachedFile → Map Bytes File → Map Bytes File
entry_at k none rest = rest
entry_at k (some f) rest = (k, file_of f) ∷ rest

abbrev pub entries : Map Bytes CachedFile → List Node → Map Bytes File
entries m [] = []
entries m (n ∷ ns) = entry_at n.path (lookup n.path m) (entries m ns)

pub Below-mono : {b c : ℕ} (ns : List Node) → b ≤ c → Below b ns → Below c ns
Below-mono [] h w = tt
Below-mono (n ∷ ns) h w = (omega arith, w.1)

module _ (k : Bytes) (m : Map Bytes CachedFile) where
  pub Avoids-of_Below :
      (f : CachedFile) (ns : List Node) (b : ℕ)
      → lookup k m ≡ some f
      → b ≤ f.lru_it
      → Below b ns
      → Linked m ns
      → Avoids k ns
  Avoids-of_Below f [] b e h w l = tt
  Avoids-of_Below f (n ∷ ns) b e h w l = (
    λ p. ground (arith, ap (λ q. lookup q m) p),
    Avoids-of_Below f ns n.id e (omega arith) w.1 l.1,
  )

  pub listed-lt :
      (f : CachedFile) (ns : List Node) (b : ℕ)
      → lookup k m ≡ some f
      → Below b ns
      → Linked m ns
      → listed k ns ≡ true
      → f.lru_it < b
  listed-lt f [] b e w l h = cc
  listed-lt f (n ∷ ns) b e w l h = elim (Bool-cases (n.path == k)) [
    | inl p ↦ ground (arith, ap (λ q. lookup q m) ((bytes_same_iff n.path k).0 p))
    | inr p ↦ ground (arith, listed-lt f ns n.id e w.1 l.1)
  ]

pub remove_path_avoided : (k : Bytes) (ns : List Node) → Avoids k ns → remove_path k ns ≡ ns
remove_path_avoided k [] a = refl
remove_path_avoided k (n ∷ ns) a =
    ground (arith, bytes_same_iff n.path k, remove_path_avoided k ns a.1)

-- To unlink an entry's node is to remove its path: the iterator of a cached entry is the one node
-- that holds the path.
pub list_erase-remove_path :
    (k : Bytes) (m : Map Bytes CachedFile) (f : CachedFile) (ns : List Node) (b : ℕ)
    → lookup k m ≡ some f
    → Below b ns
    → Linked m ns
    → listed k ns ≡ true
    → list_erase f.lru_it ns ≡ remove_path k ns
unfolding list_erase
list_erase-remove_path k m f [] b e w l h = refl
list_erase-remove_path k m f (n ∷ ns) b e w l h = elim (Bool-cases (n.path == k)) [
  | inl p ↦ ground (
    arith,
    ap (λ q. lookup q m) ((bytes_same_iff n.path k).0 p),
    remove_path_avoided k ns,
    Avoids-of_Below k m f ns n.id,
  )
  | inr p ↦ ground (arith, listed-lt k m f ns n.id, list_erase-remove_path k m f ns n.id)
]

module _ (k : Bytes) where
  pub remove_path-Avoids : (ns : List Node) → Avoids k (remove_path k ns)
  remove_path-Avoids [] = tt
  remove_path-Avoids (n ∷ ns) = elim (Bool-cases (n.path == k)) [
    | inl p ↦ rw p (remove_path-Avoids ns)
    | inr p ↦ rw p ((λ e. ground (arith, bytes_same_iff n.path k)), remove_path-Avoids ns)
  ]

  pub remove_path-Below : (b : ℕ) (ns : List Node) → Below b ns → Below b (remove_path k ns)
  remove_path-Below b [] w = tt
  remove_path-Below b (n ∷ ns) w =
      ground
        (arith, remove_path-Below n.id ns w.1, Below-mono {b = n.id} {c = b} (remove_path k ns))

  pub remove_path-Linked :
      (m : Map Bytes CachedFile) (ns : List Node) → Linked m ns → Linked m (remove_path k ns)
  remove_path-Linked m [] l = tt
  remove_path-Linked m (n ∷ ns) l = ground (arith, remove_path-Linked m ns l.1)

  pub listed-remove_path :
      (q : Bytes) (ns : List Node) → k ≢ q → listed q (remove_path k ns) ≡ listed q ns
  listed-remove_path q [] h = refl
  listed-remove_path q (n ∷ ns) h =
      ground (arith, bytes_same_iff n.path k, bytes_same_iff n.path q, listed-remove_path q ns)

  pub insert-Linked :
      (f : CachedFile) (m : Map Bytes CachedFile) (ns : List Node)
      → Avoids k ns
      → Linked m ns
      → Linked (insert k f m) ns
  insert-Linked f m [] a l = tt
  insert-Linked f m (n ∷ ns) a l =
      (rw (lookup-insert_ne k n.path f m (λ e. a.0 (sym e))) l.0, insert-Linked f m ns a.1 l.1)

  pub erase-Linked :
      (m : Map Bytes CachedFile) (ns : List Node)
      → Avoids k ns
      → Linked m ns
      → Linked (erase k m) ns
  erase-Linked m [] a l = tt
  erase-Linked m (n ∷ ns) a l =
      (rw (lookup-erase_ne k n.path m (λ e. a.0 (sym e))) l.0, erase-Linked m ns a.1 l.1)

  pub entries-insert :
      (f : CachedFile) (m : Map Bytes CachedFile) (ns : List Node)
      → Avoids k ns
      → entries (insert k f m) ns ≡ entries m ns
  entries-insert f m [] a = refl
  entries-insert f m (n ∷ ns) a =
      rw (lookup-insert_ne k n.path f m (λ e. a.0 (sym e)), entries-insert f m ns a.1)

  pub entries-erase :
      (m : Map Bytes CachedFile) (ns : List Node)
      → Avoids k ns
      → entries (erase k m) ns ≡ entries m ns
  entries-erase m [] a = refl
  entries-erase m (n ∷ ns) a =
      rw (lookup-erase_ne k n.path m (λ e. a.0 (sym e)), entries-erase m ns a.1)

  pub entries-remove_path :
      (m : Map Bytes CachedFile) (ns : List Node)
      → entries m (remove_path k ns) ≡ erase k (entries m ns)
  entries-remove_path m [] = refl
  entries-remove_path m (n ∷ ns) = ground (arith, entries-remove_path m ns)

  -- The entry of a listed path is the cached one.
  pub lookup-entries :
      (m : Map Bytes CachedFile) (f : CachedFile) (ns : List Node)
      → lookup k m ≡ some f
      → listed k ns ≡ true
      → lookup k (entries m ns) ≡ some (file_of f)
  lookup-entries m f [] e h = cc
  lookup-entries m f (n ∷ ns) e h = elim (Bool-cases (n.path == k)) [
    | inl p ↦ ground (arith, ap (λ q. lookup q m) ((bytes_same_iff n.path k).0 p))
    | inr p ↦ ground (arith, lookup-entries m f ns e)
  ]

  pub lookup-entries-none :
      (m : Map Bytes CachedFile) (ns : List Node)
      → lookup k m ≡ none
      → lookup k (entries m ns) ≡ none
  lookup-entries-none m [] e = refl
  lookup-entries-none m (n ∷ ns) e = elim (Bool-cases (n.path == k)) [
    | inl p ↦
        ground
          (arith, ap (λ q. lookup q m) ((bytes_same_iff n.path k).0 p), lookup-entries-none m ns e)
    | inr p ↦ ground (arith, lookup-entries-none m ns e)
  ]
