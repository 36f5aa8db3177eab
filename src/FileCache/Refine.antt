-- ===== src/FileCache/Refine.antt =====
-- `get` and `set_max_size` of Core/mstd/fileCache.hpp implement the specification.
use sok.Base.{
  nat_keys, ℕ, ◌+◌, ◌<◌, true, false, ◌∷◌, none, some, ◌≡◌, refl, sym, ap, ◌∙◌, arith, Bool-cases,
  Option-cases, inl, inr,
}
use sok.Base.Map.{lookup, erase, lookup-erase_self}
use sok.Base.Text.{Bytes, bytes_keys}
use sok.FileCache.{
  CachedFile, FileCache, FileView, size_mod, add_size, init, get_file_size, is_file_modified,
  drop_stale, touch, load_entry, get, set_max_size, rounds, list_erase,
}
use sok.FileCache.Invariant.{
  files, view, Coherent, IsValid, without, files-without, sum-without, size-without,
  without-Coherent,
}
use sok.FileCache.Links.{
  remove_path, remove_path-Avoids, remove_path-Below, remove_path-Linked, listed-remove_path,
  entries-remove_path, lookup-entries, lookup-entries-none, list_erase-remove_path,
}
use sok.FileCache.Load.{Refines, push-Linked, push-covered, push-entries, load_entry-Refines}
use sok.FileCache.Shrink.{shrink-Shrunk}
use sok.FileCache.Spec.{file_of, total, spec_load, spec_get, spec_set_max_size}

module _ (k : Bytes) (c : FileCache) (f : CachedFile) (valid : IsValid c)
    (found : lookup k c.cache ≡ some f) where
  open valid use {coherent as h, within}

  unlinked : list_erase f.lru_it c.lru_list ≡ remove_path k c.lru_list
  unlinked =
      list_erase-remove_path k c.cache f c.lru_list c.next_node found h.below h.linked
        (h.covered k f found)

  drop_stale-without :
      drop_stale k f c ≡ record (without k f c) { cache_misses = add_size c.cache_misses 1 }
  unfolding drop_stale
  drop_stale-without = rw unlinked

  drop_stale-Coherent : Coherent (drop_stale k f c) × (files (drop_stale k f c) ≡ erase k (files c))
  drop_stale-Coherent =
      let w = without-Coherent k f c h found in
      rw drop_stale-without (
        record {
          below = w.below;
          linked = w.linked;
          covered = w.covered;
          counted = w.counted;
          small = w.small;
        },
        files-without k f c h found,
      )

  touch-IsValid : IsValid (touch k f c) × (files (touch k f c) ≡ (k, file_of f) ∷ erase k (files c))
  unfolding touch
  touch-IsValid =
      let rest = remove_path k c.lru_list in
      let apart = remove_path-Avoids k c.lru_list in
      let pushed = push-entries k f c.next_node c.cache rest apart in
      let seen = pushed ∙ ap (◌∷◌ (k, file_of f)) (entries-remove_path k c.cache c.lru_list) in
      rw unlinked (
        record {
          coherent = record {
            below = (omega arith, remove_path-Below k c.next_node c.lru_list h.below);
            linked =
                push-Linked k f c.next_node c.cache rest apart
                  (remove_path-Linked k c.cache c.lru_list h.linked);
            covered =
                push-covered k f c.next_node c.cache rest apart
                  (λ q g ne e. listed-remove_path k q c.lru_list ne ∙ h.covered q g e);
            counted = omega (arith, ap total seen, sum-without k f c h found);
            small = h.small;
          };
          within = within;
        },
        seen,
      )

view-drop_stale :
    (k : Bytes) (f : CachedFile) (c : FileCache)
    → files (drop_stale k f c) ≡ erase k (files c)
    → view (drop_stale k f c)
      ≡ record (view c) { files = erase k (files c); misses = add_size c.cache_misses 1 }
unfolding drop_stale
view-drop_stale k f c e = λ i. record (view c) { files = e i; misses = add_size c.cache_misses 1 }

view-touch :
    (k : Bytes) (f : CachedFile) (c : FileCache)
    → files (touch k f c) ≡ (k, file_of f) ∷ erase k (files c)
    → view (touch k f c) ≡ record (view c) {
      files = (k, file_of f) ∷ erase k (files c);
      hits = add_size c.cache_hits 1;
    }
unfolding touch
view-touch k f c e = λ i. record (view c) { files = e i; hits = add_size c.cache_hits 1 }

module _ (k : Bytes) (v : FileView) (c : FileCache) (f : CachedFile) (valid : IsValid c)
    (found : lookup k c.cache ≡ some f) where
  open valid use {coherent as h, within}

  seen : lookup k (files c) ≡ some (file_of f)
  seen = lookup-entries k c.cache f c.lru_list found (h.covered k f found)

  stale-Refines :
      is_file_modified v.checked f.last_modified ≡ true
      → c.max_size + get_file_size v.sized < size_mod
      → Refines (get k v c) (spec_get k v (view c))
  unfolding get spec_get drop_stale
  stale-Refines stale room =
      let (h', dropped) = drop_stale-Coherent k c f valid found in
      let code : get k v c ≡ load_entry k v (drop_stale k f c) = rw (found, get, stale) in
      let spec : spec_get k v (view c) ≡ spec_load k v (view (drop_stale k f c)) =
        rw (seen, spec_get, stale) (ap (spec_load k v) (sym (view-drop_stale k f c dropped))) in
      let size = size-without k f c h found in
      let sum = sum-without k f c h found in
      rw (code, spec)
        (load_entry-Refines k v (drop_stale k f c) h' (rw size (omega arith))
          (lookup-erase_self k c.cache) room)

  pub fresh-Refines :
      is_file_modified v.checked f.last_modified ≡ false
      → Refines (get k v c) (spec_get k v (view c))
  unfolding get spec_get
  fresh-Refines fresh =
      let (valid', moved) = touch-IsValid k c f valid found in
      (
        touch k f c,
        some (f.content, f.mime_type),
        rw (found, get, fresh),
        valid',
        view-touch k f c moved ∙ rw (seen, spec_get, fresh),
        rw (seen, spec_get, fresh),
      )

miss-Refines :
    (k : Bytes) (v : FileView) (c : FileCache)
    → IsValid c
    → lookup k c.cache ≡ none
    → c.max_size + get_file_size v.sized < size_mod
    → Refines (get k v c) (spec_get k v (view c))
unfolding get spec_get
miss-Refines k v c valid absent room =
    let missed = record c { cache_misses = add_size c.cache_misses 1 } in
    let h = valid.coherent in
    let unseen = lookup-entries-none k c.cache c.lru_list absent in
    let code : get k v c ≡ load_entry k v missed = rw (absent, get) in
    let spec : spec_get k v (view c) ≡ spec_load k v (view missed) = rw (unseen, spec_get) in
    rw (code, spec)
      (load_entry-Refines k v missed
        (record {
          below = h.below;
          linked = h.linked;
          covered = h.covered;
          counted = h.counted;
          small = h.small;
        })
        valid.within absent room)

-- On a valid cache, as long as the budget and the file's size together fit in `size_t`, `get`
-- returns, keeps the cache valid, and does what the specification does: it serves and moves to the
-- front a fresh file, loads a new or changed one, counts the hit or the miss, and keeps the most
-- recently used files that the budget holds.
pub get-Refines :
    (path : Bytes) (v : FileView) (c : FileCache)
    → IsValid c
    → c.max_size + get_file_size v.sized < size_mod
    → Refines (get path v c) (spec_get path v (view c))
get-Refines path v c valid room = elim (Option-cases (lookup path c.cache)) [
  | inl absent ↦ miss-Refines path v c valid absent room
  | inr (f, found) ↦ elim (Bool-cases (is_file_modified v.checked f.last_modified)) [
    | inl stale ↦ stale-Refines path v c f valid found stale room
    | inr fresh ↦ fresh-Refines path v c f valid found fresh
  ]
]

-- On a valid cache `set_max_size` returns a valid cache with the new budget, which holds the most
-- recently used files that the new budget allows.
pub set_max_size-Refines :
    (max_size : ℕ) (c : FileCache)
    → IsValid c
    → (c' : FileCache) × (set_max_size max_size c ≡ some c')
      × IsValid c'
      × (view c' ≡ spec_set_max_size max_size (view c))
unfolding set_max_size spec_set_max_size
set_max_size-Refines max_size c valid =
    let h = valid.coherent in
    shrink-Shrunk (rounds c) (record c { max_size = max_size })
      (record {
        below = h.below;
        linked = h.linked;
        covered = h.covered;
        counted = h.counted;
        small = h.small;
      })
      (omega arith)

pub init-IsValid : (max_size : ℕ) → IsValid (init max_size)
unfolding init
init-IsValid max_size = record {
  coherent = record {
    below = tt;
    linked = tt;
    covered = λ q f e. cc;
    counted = refl;
    small = omega arith;
  };
  within = omega arith;
}
