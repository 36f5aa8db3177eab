-- ===== src/FileCache/Tests.antt =====
-- Runs of the cache of Core/mstd/fileCache.hpp on small files, and its theorems at such inputs.
use sok.Base.{ℕ, ◌<◌, true, List, [], ◌∷◌, Option, some, ◌≡◌, refl, arith}
use sok.Base.Int.{pos}
use sok.Base.Map.{lookup}
use sok.Base.Text.{Bytes, bytes_keys, codes}
use sok.FileCache.{
  CachedFile, FileCache, FileView, Stat, init, get, set_max_size, shrink, touch, drop_stale,
  load_entry, load_file, list_erase, evict, add_entry, add_size, sub_size, read_into,
  is_file_modified, get_file_size,
}
use sok.FileCache.History
use sok.FileCache.History.{Call, gets, sets_max_size, step}
use sok.FileCache.Invariant.{IsValid, view}
use sok.FileCache.Mime.{
  to_lower, or_octet_stream, get_mime_type, mime_types, octet_stream, get_mime_type-extension,
}
use sok.FileCache.Load.{Refines}
use sok.FileCache.Refine.{get-Refines, init-IsValid}
use sok.FileCache.Serve.{get-get}
use sok.FileCache.Spec.{File, spec_get}

program : Unit {0}
unfolding init get set_max_size shrink touch drop_stale load_entry load_file list_erase evict
    add_entry add_size sub_size read_into is_file_modified get_file_size get_mime_type
program = tt

abbrev page : Bytes
page = codes "www/a.HTML"

abbrev style : Bytes
style = codes "www/b.css"

abbrev stat_of : ℕ → ℕ → Option Stat
stat_of time size = some (record { mtime = pos time; size = size })

abbrev answers : Option Stat → Bytes → FileView
answers s bytes = record { checked = s; is_open = true; sized = s; readable = bytes; stamped = s }

abbrev page_view : FileView
page_view = answers (stat_of 5 3) (codes "abc")

abbrev style_view : FileView
style_view = answers (stat_of 6 4) (codes "wxyz")

abbrev page_file : CachedFile
page_file = record {
  content = codes "abc";
  mime_type = codes "text/html; charset=utf-8";
  last_modified = pos 5;
  file_size = 3;
  lru_it = 0;
}

abbrev page_entry : File
page_entry = record {
  content = codes "abc";
  mime_type = codes "text/html; charset=utf-8";
  last_modified = pos 5;
  file_size = 3;
}

-- The cache that holds the page alone.
abbrev holding : ℕ → FileCache
holding max_size = record {
  max_size = max_size;
  current_size = 3;
  lru_list = (record { id = 0; path = page }) ∷ [];
  cache = (page, page_file) ∷ [];
  cache_hits = 0;
  cache_misses = 1;
  next_node = 1;
}

first_get :
    get page page_view (init 6)
    ≡ some (holding 6, some (codes "abc", codes "text/html; charset=utf-8"))
unfolding program
first_get = refl

-- The second file does not fit beside the first, which is evicted.
second_get :
    get style style_view (holding 6)
    ≡ some (
      record {
        max_size = 6;
        current_size = 4;
        lru_list = (record { id = 1; path = style }) ∷ [];
        cache =
            (
              style,
              record {
                content = codes "wxyz";
                mime_type = codes "text/css; charset=utf-8";
                last_modified = pos 6;
                file_size = 4;
                lru_it = 1;
              },
            )
            ∷ [];
        cache_hits = 0;
        cache_misses = 2;
        next_node = 2;
      },
      some (codes "wxyz", codes "text/css; charset=utf-8"),
    )
unfolding program
second_get = refl

holding-IsValid : (max_size : ℕ) → 2 < max_size → IsValid (holding max_size)
holding-IsValid max_size h = record {
  coherent = record {
    below = omega arith;
    linked = (refl, tt);
    covered = λ q f e. ground arith;
    counted = refl;
    small = omega arith;
  };
  within = h;
}

get-Refines_example :
    Refines (get style style_view (holding 6)) (spec_get style style_view (view (holding 6)))
unfolding get_file_size
get-Refines_example =
    get-Refines style style_view (holding 6) (holding-IsValid 6 (omega arith)) (omega arith)

abbrev history : List Call
history = gets page page_view ∷ gets style style_view ∷ sets_max_size 3 ∷ gets page page_view ∷ []

run-Refines_example :
    (c : FileCache) × (History.run (init 6) history ≡ some c)
    × IsValid c
    × (view c ≡ History.spec_run (view (init 6)) history)
unfolding get_file_size
run-Refines_example = History.run-Refines 6 history (omega arith) (omega arith)

get-get_example :
    (c'' : FileCache) × (get page page_view (holding 6)
      ≡ some (c'', some (codes "abc", codes "text/html; charset=utf-8")))
    × (c''.cache_hits ≡ add_size 0 1)
    × (c''.cache_misses ≡ 1)
unfolding program
get-get_example =
    get-get page page_view (init 6) (holding 6) (codes "abc", codes "text/html; charset=utf-8")
      (init-IsValid 6) (omega arith) refl (omega arith) refl

get_mime_type-extension_example :
    (get_mime_type page ≡ or_octet_stream (lookup (codes "html") mime_types))
    × (get_mime_type (codes "README") ≡ octet_stream)
unfolding to_lower
get_mime_type-extension_example =
    get_mime_type-extension (codes "www/a") (codes "HTML") (codes "html") (codes "README")
      (omega arith) (omega arith) refl
