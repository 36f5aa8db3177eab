-- ===== src/FileCache/Spec.antt =====
-- What the cache of Core/mstd/fileCache.hpp promises, with the nodes, the iterators, the counter of
-- bytes and the eviction loop gone: the files held, the most recently used first, and a budget.
use sok.Base.{◌≡◌, arith, ℕ, ◌+◌, ◌-◌, [], ◌∷◌, none, some, leb, if◌then◌else◌}
use sok.Base.Int.{ℤ}
use sok.Base.Map.{Map, lookup, erase}
use sok.Base.Text.{Bytes, bytes_keys}
use sok.FileCache.{CachedFile, FileView, Served, add_size, is_file_modified, load_file}

pub record File : Type 0 where
  pub content : Bytes
  pub mime_type : Bytes
  pub last_modified : ℤ
  pub file_size : ℕ

abbrev pub file_of : CachedFile → File
file_of f = record {
  content = f.content;
  mime_type = f.mime_type;
  last_modified = f.last_modified;
  file_size = f.file_size;
}

pub record Lru : Type 0 where
  pub max_size : ℕ
  pub files : Map Bytes File
  pub hits : ℕ
  pub misses : ℕ

abbrev pub total : Map Bytes File → ℕ
total [] = 0
total (e ∷ es) = e.1.file_size + total es

-- The longest run of the most recent files that the budget holds.
unfoldable pub fit : ℕ → Map Bytes File → Map Bytes File
fit budget [] = []
fit budget (e ∷ es) =
    let rest = fit (budget - e.1.file_size) es in if leb e.1.file_size budget then e ∷ rest else []

unfoldable pub spec_load : Bytes → FileView → Lru → Lru × Served
spec_load path v s = elim (load_file path v) [
  | none ↦ (s, none)
  | some f ↦ (
    record s { files = fit s.max_size ((path, file_of f) ∷ s.files) },
    some (f.content, f.mime_type),
  )
]

unfoldable pub spec_get : Bytes → FileView → Lru → Lru × Served
spec_get path v s = elim (lookup path s.files) [
  | none ↦ spec_load path v (record s { misses = add_size s.misses 1 })
  | some f ↦
      if is_file_modified v.checked f.last_modified
      then spec_load path v (record s { files = erase path s.files; misses = add_size s.misses 1 })
      else (
        record s { files = (path, f) ∷ erase path s.files; hits = add_size s.hits 1 },
        some (f.content, f.mime_type),
      )
]

unfoldable pub spec_set_max_size : ℕ → Lru → Lru
spec_set_max_size max_size s = record s { max_size = max_size; files = fit max_size s.files }

pub spec_get-max_size :
    (path : Bytes) (v : FileView) (s : Lru) → (spec_get path v s).0.max_size ≡ s.max_size
unfolding spec_get spec_load
spec_get-max_size path v s = ground arith
