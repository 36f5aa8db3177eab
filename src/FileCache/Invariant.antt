-- ===== src/FileCache/Invariant.antt =====
-- The invariant of Core/mstd/fileCache.hpp: the list, the map and the counter of bytes agree.
use sok.Base.{
  nat_keys, ℕ, ◌+◌, ◌-◌, ◌≤◌, ◌<◌, true, some, ◌≡◌, refl, sym, ap, subst, ◌∙◌, arith, ◌==◌,
  drop_last, last?, Bool-cases, Option-cases, inl, inr,
}
use sok.Base.Map.{Map, lookup, erase, lookup-erase}
use sok.Base.Text.{Bytes, bytes_keys, bytes_same_iff}
use sok.FileCache.{CachedFile, Node, FileCache, size_mod, add_size, sub_size, evict_node, evict}
use sok.FileCache.Links.{
  Below, Linked, listed, entries, remove_path, remove_path-Avoids, remove_path-Below,
  remove_path-Linked, listed-remove_path, erase-Linked, entries-erase, entries-remove_path,
  lookup-entries,
}
use sok.FileCache.Links.Last.{
  last-Linked, drop_last-remove_path, entries-drop_last, entries-Distinct, node_of-some, last-none,
}
use sok.FileCache.Sizes.{total-erase}
use sok.FileCache.Spec.{File, file_of, Lru, total}

abbrev pub files : FileCache → Map Bytes File
files c = entries c.cache c.lru_list

-- The specification's state that a cache stands for.
abbrev pub view : FileCache → Lru
view c = record {
  max_size = c.max_size;
  files = files c;
  hits = c.cache_hits;
  misses = c.cache_misses;
}

pub record Coherent (c : FileCache) : Type 0 where
  pub below : Below c.next_node c.lru_list
  pub linked : Linked c.cache c.lru_list
  pub covered :
      (q : Bytes) (f : CachedFile) → lookup q c.cache ≡ some f → listed q c.lru_list ≡ true
  pub counted : c.current_size ≡ total (files c)
  pub small : c.current_size < size_mod

-- Between two calls the budget holds too.
pub record IsValid (c : FileCache) : Type 0 where
  pub coherent : Coherent c
  pub within : c.current_size ≤ c.max_size

pub sub_size_lem : (a b : ℕ) → b ≤ a → a < size_mod → sub_size a b ≡ a - b
unfolding sub_size
sub_size_lem a b h l = omega arith

pub add_size_lem : (a b : ℕ) → a + b < size_mod → add_size a b ≡ a + b
unfolding add_size
add_size_lem a b h = omega arith

-- A cached path leaves, with its node and its bytes.
abbrev pub without : Bytes → CachedFile → FileCache → FileCache
without k f c = record c {
  current_size = sub_size c.current_size f.file_size;
  cache = erase k c.cache;
  lru_list = remove_path k c.lru_list;
}

module _ (k : Bytes) (f : CachedFile) (c : FileCache) (v : Coherent c)
    (found : lookup k c.cache ≡ some f) where
  pub files-without : files (without k f c) ≡ erase k (files c)
  files-without =
      entries-erase k c.cache (remove_path k c.lru_list) (remove_path-Avoids k c.lru_list)
      ∙ entries-remove_path k c.cache c.lru_list

  -- The bytes of the entry are part of the count.
  pub sum-without : total (erase k (files c)) + f.file_size ≡ c.current_size
  sum-without =
      let held = lookup-entries k c.cache f c.lru_list found (v.covered k f found) in
      let distinct = entries-Distinct c.cache c.lru_list c.next_node v.below v.linked in
      total-erase k (file_of f) (files c) distinct held ∙ sym v.counted

  pub size-without : sub_size c.current_size f.file_size ≡ total (erase k (files c))
  size-without =
      sub_size_lem c.current_size f.file_size (omega (arith, sum-without)) v.small
      ∙ omega (arith, sum-without)

  covered-without :
      (q : Bytes) (g : CachedFile)
      → lookup q (erase k c.cache) ≡ some g
      → listed q (remove_path k c.lru_list) ≡ true
  covered-without q g h = elim (Bool-cases (k == q)) [
    | inl p ↦ ground (arith, lookup-erase k q c.cache)
    | inr p ↦ ground (
      arith,
      lookup-erase k q c.cache,
      listed-remove_path k q c.lru_list (λ e. ground (arith, bytes_same_iff k q)),
      v.covered q g,
    )
  ]

  pub without-Coherent : Coherent (without k f c)
  without-Coherent = record {
    below = remove_path-Below k c.next_node c.lru_list v.below;
    linked =
        erase-Linked k c.cache (remove_path k c.lru_list) (remove_path-Avoids k c.lru_list)
          (remove_path-Linked k c.cache c.lru_list v.linked);
    covered = covered-without;
    counted = size-without ∙ ap total (sym files-without);
    small = rw size-without (let s = v.small in omega (arith, sum-without));
  }

-- To evict is to drop the least recently used file.
abbrev pub Evicted : FileCache → FileCache → Type 0
Evicted c c' =
    Coherent c'
    × (files c' ≡ drop_last (files c))
    × (c'.lru_list ≡ drop_last c.lru_list)
    × (c'.max_size ≡ c.max_size)
    × (c'.cache_hits ≡ c.cache_hits)
    × (c'.cache_misses ≡ c.cache_misses)

evict_node-without :
    (c : FileCache) (n : Node) (f : CachedFile)
    → lookup n.path c.cache ≡ some f
    → drop_last c.lru_list ≡ remove_path n.path c.lru_list
    → evict_node c n ≡ without n.path f c
unfolding evict_node
evict_node-without c n f found same = rw (found, evict_node, same)

without-Evicted :
    (c : FileCache) (n : Node) (f : CachedFile)
    → Coherent c
    → lookup n.path c.cache ≡ some f
    → drop_last c.lru_list ≡ remove_path n.path c.lru_list
    → Evicted c (without n.path f c)
without-Evicted c n f v found same = (
  without-Coherent n.path f c v found,
  files-without n.path f c v found
      ∙ sym (entries-remove_path n.path c.cache c.lru_list)
      ∙ ap (entries c.cache) (sym same)
      ∙ entries-drop_last c.cache c.lru_list v.linked,
  sym same,
  refl,
  refl,
  refl,
)

evict_node-Evicted :
    (c : FileCache) (n : Node) → Coherent c → last? c.lru_list ≡ some n → Evicted c (evict_node c n)
evict_node-Evicted c n v e =
    let last = last-Linked c.cache n c.lru_list e v.linked in
    let (f, found) = node_of-some (lookup n.path c.cache) n.id last in
    let same = drop_last-remove_path c.cache n c.lru_list c.next_node e v.below v.linked in
    rw (evict_node-without c n f found same) (without-Evicted c n f v found same)

pub evict-Evicted : (c : FileCache) → Coherent c → Evicted c (evict c)
unfolding evict
evict-Evicted c v = elim (Option-cases (last? c.lru_list)) [
  | inl e ↦
      let nil = last-none c.lru_list e in
      subst (Evicted c) (rw (e, evict)) (v, ground arith, ground arith, refl, refl, refl)
  | inr (n, e) ↦ subst (Evicted c) (rw (e, evict)) (evict_node-Evicted c n v e)
]
