-- ===== src/FileCache/Load.antt =====
-- Entries that `get` of Core/mstd/fileCache.hpp links and loads.
use sok.Base.{
  nat_keys, ℕ, ◌+◌, ◌≤◌, ◌<◌, true, List, [], ◌∷◌, Option, none, some, ◌≡◌, ◌≢◌, ap, ◌∙◌, arith,
  ◌==◌, Bool-cases, Option-cases, inl, inr,
}
use sok.Base.Map.{Map, lookup, insert, lookup-insert, lookup-insert_self}
use sok.Base.Text.{Bytes, bytes_keys, bytes_same_iff}
use sok.FileCache.{
  CachedFile, Node, FileCache, FileView, Served, size_mod, get_file_size, load_file, add_entry,
  load_entry, rounds,
}
use sok.FileCache.Invariant.{files, view, Coherent, IsValid, add_size_lem}
use sok.FileCache.Links.{Linked, Avoids, listed, node_of, entries, insert-Linked, entries-insert}
use sok.FileCache.Shrink.{shrink-Shrunk}
use sok.FileCache.Spec.{file_of, Lru, total, fit, spec_load}

pub Avoids-of_none :
    (k : Bytes) (m : Map Bytes CachedFile) (ns : List Node)
    → lookup k m ≡ none
    → Linked m ns
    → Avoids k ns
Avoids-of_none k m [] e l = tt
Avoids-of_none k m (n ∷ ns) e l =
    (λ p. ground (arith, ap (λ q. lookup q m) p), Avoids-of_none k m ns e l.1)

-- A node for a path that no node holds, and the entry that it belongs to.
module _ (k : Bytes) (f : CachedFile) (b : ℕ) (m : Map Bytes CachedFile) (ns : List Node)
    (apart : Avoids k ns) where
  abbrev entry : CachedFile
  entry = record f { lru_it = b }

  abbrev node : Node
  node = record { id = b; path = k }

  pub push-Linked : Linked m ns → Linked (insert k entry m) (node ∷ ns)
  push-Linked l = (ap node_of (lookup-insert_self k entry m), insert-Linked k entry m ns apart l)

  pub push-covered :
      ((q : Bytes) (g : CachedFile) → k ≢ q → lookup q m ≡ some g → listed q ns ≡ true)
      → (q : Bytes) (g : CachedFile) → lookup q (insert k entry m) ≡ some g
      → listed q (node ∷ ns) ≡ true
  push-covered old q g h = elim (Bool-cases (k == q)) [
    | inl p ↦ ground arith
    | inr p ↦
        ground (arith, lookup-insert k q entry m, old q g (λ e. ground (arith, bytes_same_iff k q)))
  ]

  pub push-entries : entries (insert k entry m) (node ∷ ns) ≡ (k, file_of f) ∷ entries m ns
  push-entries =
      rw (lookup-insert_self k entry m)
        (ap (◌∷◌ (k, file_of f)) (entries-insert k entry m ns apart))

-- A call of the detailed cache gives what the specification gives, and a valid cache.
abbrev pub Refines : Option (FileCache × Served) → Lru × Served → Type 0
Refines o s =
    (c' : FileCache) × (r : Served) × (o ≡ some (c', r)) × IsValid c' × (view c' ≡ s.0) × (r ≡ s.1)

load_file-size :
    (k : Bytes) (v : FileView) (f : CachedFile)
    → load_file k v ≡ some f
    → f.file_size ≡ get_file_size v.sized
unfolding load_file
load_file-size k v f e = ground arith

module _ (k : Bytes) (v : FileView) (c : FileCache) where
  add_entry-Coherent :
      (f : CachedFile)
      → Coherent c
      → lookup k c.cache ≡ none
      → c.current_size + f.file_size < size_mod
      → Coherent (add_entry k f c) × (files (add_entry k f c) ≡ (k, file_of f) ∷ files c)
  unfolding add_entry
  add_entry-Coherent f h absent room =
      let apart = Avoids-of_none k c.cache c.lru_list absent h.linked in
      let pushed = push-entries k f c.next_node c.cache c.lru_list apart in
      let size = add_size_lem c.current_size f.file_size room in
      (
        record {
          below = (omega arith, h.below);
          linked = push-Linked k f c.next_node c.cache c.lru_list apart h.linked;
          covered = push-covered k f c.next_node c.cache c.lru_list apart (λ q g _. h.covered q g);
          counted = size ∙ (let n = h.counted in omega (arith, ap total pushed));
          small = rw size room;
        },
        pushed,
      )

  pub load_entry-Refines :
      Coherent c
      → c.current_size ≤ c.max_size
      → lookup k c.cache ≡ none
      → c.max_size + get_file_size v.sized < size_mod
      → Refines (load_entry k v c) (spec_load k v (view c))
  unfolding load_entry spec_load add_entry
  load_entry-Refines h within absent room = elim (Option-cases (load_file k v)) [
    | inl e ↦ (
      c,
      none,
      rw (e, load_entry),
      record { coherent = h; within = within },
      rw (e, spec_load),
      rw (e, spec_load),
    )
    | inr (f, e) ↦
        let size = load_file-size k v f e in
        let (h', seen) = add_entry-Coherent f h absent (omega arith) in
        let (c', run, valid, kept) =
          shrink-Shrunk (rounds (add_entry k f c)) (add_entry k f c) h' (omega arith) in
        (
          c',
          some (f.content, f.mime_type),
          rw (e, load_entry, run),
          valid,
          kept ∙ rw (e, spec_load) λ i. record (view c) { files = fit c.max_size (seen i) },
          rw (e, spec_load),
        )
  ]
