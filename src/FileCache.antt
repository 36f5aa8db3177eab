-- ===== src/FileCache.antt =====
-- Core/mstd/fileCache.hpp: the LRU cache of file contents. The mutex makes each call atomic, so a
-- call is a function from the old state to the new one and its result.
-- `std::list` nodes carry an identity, which is what a stored iterator `lru_it` denotes. What the
-- operating system answers during one call of `get` is the argument `FileView`.
pub mod Mime
pub mod Spec
pub mod Links
pub mod Sizes
pub mod Invariant
pub mod Shrink
pub mod Load
pub mod Refine
pub mod History
pub mod Serve
mod Tests
use sok.Base.{
  nat_keys, ℕ, zero, suc, ◌+◌, ◌-◌, ◌%◌, ◌^◌, Bool, true, false, List, [], ◌∷◌, ◌++◌, Option, none,
  some, ltb, if◌then◌else◌, ◌==◌, ◌>>=◌, length, take, drop_last, last?, replicate,
}
use sok.Base.Int.{ℤ, pos, ltb_ℤ}
use sok.Base.Map.{Map, lookup, insert, erase}
use sok.Base.Text.{Bytes, bytes_keys}
use sok.FileCache.Mime.{get_mime_type}

-- size_t arithmetic wraps.
abbrev pub size_mod : ℕ
size_mod = 2 ^ 64

unfoldable pub add_size : ℕ → ℕ → ℕ
add_size a b = (a + b) % size_mod

unfoldable pub sub_size : ℕ → ℕ → ℕ
sub_size a b = (a + size_mod - b) % size_mod

pub record CachedFile : Type 0 where
  pub content : Bytes
  pub mime_type : Bytes
  pub last_modified : ℤ
  pub file_size : ℕ
  pub lru_it : ℕ

-- A node of `lru_list_`: its identity, and the path it holds.
pub record Node : Type 0 where
  pub id : ℕ
  pub path : Bytes

pub record FileCache : Type 0 where
  pub max_size : ℕ
  pub current_size : ℕ
  pub lru_list : List Node
  pub cache : Map Bytes CachedFile
  pub cache_hits : ℕ
  pub cache_misses : ℕ
  pub next_node : ℕ

-- What `stat` reports: `st_mtime` and `st_size`.
pub record Stat : Type 0 where
  pub mtime : ℤ
  pub size : ℕ

-- The answers of the system calls that one `get` makes on its path, in the order of the calls: the
-- `stat` of the freshness test, the opening of the stream, the `stat` for the size, the bytes that
-- can be read, the `stat` for the time. A failed `stat` is `none`. The file may change in between.
pub record FileView : Type 0 where
  pub checked : Option Stat
  pub is_open : Bool
  pub sized : Option Stat
  pub readable : Bytes
  pub stamped : Option Stat

unfoldable pub init : ℕ → FileCache
init max_size = record {
  max_size = max_size;
  current_size = 0;
  lru_list = [];
  cache = [];
  cache_hits = 0;
  cache_misses = 0;
  next_node = 0;
}

unfoldable pub get_file_last_write_time : Option Stat → ℤ
get_file_last_write_time none = pos 0
get_file_last_write_time (some s) = s.mtime

unfoldable pub get_file_size : Option Stat → ℕ
get_file_size none = 0
get_file_size (some s) = s.size

unfoldable pub is_file_modified : Option Stat → ℤ → Bool
unfolding get_file_last_write_time
is_file_modified answer cached_time = ltb_ℤ cached_time (get_file_last_write_time answer)

-- `read` into a buffer of `n` zeros: what the file does not fill stays zero.
unfoldable pub read_into : ℕ → Bytes → Bytes
read_into zero bytes = []
read_into (suc n) [] = 0 ∷ read_into n []
read_into (suc n) (b ∷ bytes) = b ∷ read_into n bytes

-- `load_file`; the caller sets the iterator, which is 0 here.
unfoldable pub load_file : Bytes → FileView → Option CachedFile
unfolding get_file_size get_file_last_write_time
load_file path v =
    let size = get_file_size v.sized in
    let loaded : CachedFile = record {
      content = read_into size v.readable;
      mime_type = get_mime_type path;
      last_modified = get_file_last_write_time v.stamped;
      file_size = size;
      lru_it = 0;
    } in
    if v.is_open then (if size == 0 then none else some loaded) else none

-- `lru_list_.erase(it)`: unlinks the node that the iterator denotes.
unfoldable pub list_erase : ℕ → List Node → List Node
list_erase it [] = []
list_erase it (n ∷ ns) = if n.id == it then ns else n ∷ list_erase it ns

-- `evict`. The loops that call it read `current_size_` only.
unfoldable pub evict_node : FileCache → Node → FileCache
evict_node c lru_file = elim (lookup lru_file.path c.cache) [
  | none ↦ record c { lru_list = drop_last c.lru_list }
  | some f ↦ record c {
    current_size = sub_size c.current_size f.file_size;
    cache = erase lru_file.path c.cache;
    lru_list = drop_last c.lru_list;
  }
]

unfoldable pub evict : FileCache → FileCache
unfolding evict_node
evict c = elim (last? c.lru_list) [ none ↦ c | some lru_file ↦ evict_node c lru_file ]

-- `while (current_size_ > max_size_) evict();` `none` means that the rounds did not suffice.
unfoldable pub shrink : ℕ → FileCache → Option FileCache
shrink zero c = none
shrink (suc rounds) c = elim (ltb c.max_size c.current_size) [
  | true ↦ shrink rounds (evict c)
  | false ↦ some c
]

-- One round for each node, and one for the last test.
abbrev pub rounds : FileCache → ℕ
rounds c = suc (length c.lru_list)

unfoldable pub push_front : Bytes → FileCache → FileCache
push_front path c = record c {
  lru_list = (record { id = c.next_node; path = path }) ∷ c.lru_list;
  next_node = suc c.next_node;
}

-- The part of `get` before the load: the stale entry leaves, or the hit moves to the front.
unfoldable pub drop_stale : Bytes → CachedFile → FileCache → FileCache
drop_stale path f c = record c {
  current_size = sub_size c.current_size f.file_size;
  lru_list = list_erase f.lru_it c.lru_list;
  cache = erase path c.cache;
  cache_misses = add_size c.cache_misses 1;
}

unfoldable pub touch : Bytes → CachedFile → FileCache → FileCache
unfolding push_front
touch path f c =
    let moved = push_front path (record c { lru_list = list_erase f.lru_it c.lru_list }) in
    record moved {
      cache = insert path (record f { lru_it = c.next_node }) c.cache;
      cache_hits = add_size c.cache_hits 1;
    }

-- The new entry, before the loop.
unfoldable pub add_entry : Bytes → CachedFile → FileCache → FileCache
unfolding push_front
add_entry path f c =
    let linked = push_front path c in
    record linked {
      cache = insert path (record f { lru_it = c.next_node }) c.cache;
      current_size = add_size c.current_size f.file_size;
    }

-- What `get` returns: a miss that cannot be loaded, or the content and its type.
abbrev pub Served : Type 0
Served = Option (Bytes × Bytes)

-- The part of `get` from `load_file` on.
unfoldable pub load_entry : Bytes → FileView → FileCache → Option (FileCache × Served)
load_entry path v c = elim (load_file path v) [
  | none ↦ some (c, none)
  | some f ↦
      let added = add_entry path f c in
      shrink (rounds added) added >>= λ c'. some (c', some (f.content, f.mime_type))
]

unfoldable pub get : Bytes → FileView → FileCache → Option (FileCache × Served)
get path v c = elim (lookup path c.cache) [
  | none ↦ load_entry path v (record c { cache_misses = add_size c.cache_misses 1 })
  | some f ↦
      if is_file_modified v.checked f.last_modified
      then load_entry path v (drop_stale path f c)
      else some (touch path f c, some (f.content, f.mime_type))
]

unfoldable pub set_max_size : ℕ → FileCache → Option FileCache
set_max_size max_size c = let c' = record c { max_size = max_size } in shrink (rounds c) c'
