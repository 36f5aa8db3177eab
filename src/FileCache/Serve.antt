-- ===== src/FileCache/Serve.antt =====
-- What a client of the cache of Core/mstd/fileCache.hpp is served.
use sok.Base.{
  nat_keys, ℕ, zero, suc, ◌+◌, ◌≤◌, ◌<◌, false, [], ◌∷◌, none, some, ◌≡◌, refl, sym, ap, subst, ◌∙◌,
  arith, length, same_refl, Option-cases, Bool-cases, inl, inr,
}
use sok.Base.Int.{ℤ, pos, ltb_ℤ}
use sok.Base.Map.{lookup, erase}
use sok.Base.Text.{Bytes, bytes_keys}
use sok.FileCache.{
  CachedFile, FileCache, FileView, Served, size_mod, get, get_file_size, get_file_last_write_time,
  is_file_modified, load_file, read_into, add_size,
}
use sok.FileCache.Invariant.{files, view, IsValid}
use sok.FileCache.Links.{lookup-entries, lookup-entries-none}
use sok.FileCache.Refine.{get-Refines, fresh-Refines}
use sok.FileCache.Spec.{File, file_of, Lru, fit, spec_load, spec_get}

length-read_into : (n : ℕ) (bytes : Bytes) → length (read_into n bytes) ≡ n
unfolding read_into
length-read_into zero bytes = refl
length-read_into (suc n) [] = ap suc (length-read_into n [])
length-read_into (suc n) (b ∷ bytes) = ap suc (length-read_into n bytes)

read_into_whole : (n : ℕ) (bytes : Bytes) → length bytes ≡ n → read_into n bytes ≡ bytes
unfolding read_into
read_into_whole zero [] h = refl
read_into_whole zero (b ∷ bytes) h = absurd (omega arith)
read_into_whole (suc n) [] h = absurd (omega arith)
read_into_whole (suc n) (b ∷ bytes) h = ap (◌∷◌ b) (read_into_whole n bytes (omega arith))

-- A file that is loaded is not empty, its content is as long as `stat` said whatever could be read,
-- and where that many bytes could be read the content is those bytes.
pub load_file-content :
    (path : Bytes) (v v' : FileView) (f f' : CachedFile)
    → load_file path v ≡ some f
    → load_file path v' ≡ some f'
    → length v'.readable ≡ get_file_size v'.sized
    → (0 < f.file_size)
      × (length f.content ≡ f.file_size)
      × (f.file_size ≡ get_file_size v.sized)
      × (f'.content ≡ v'.readable)
unfolding load_file
load_file-content path v v' f f' e e' whole = ground (
  arith,
  length-read_into (get_file_size v.sized) v.readable,
  read_into_whole (get_file_size v'.sized) v'.readable whole,
)

ltb_ℤ_irrefl : (a : ℤ) → ltb_ℤ a a ≡ false
ltb_ℤ_irrefl a = ground arith

loaded_facts :
    (path : Bytes) (v : FileView) (f : CachedFile)
    → load_file path v ≡ some f
    → (f.file_size ≡ get_file_size v.sized) × (f.last_modified ≡ get_file_last_write_time v.stamped)
unfolding load_file
loaded_facts path v f e = ground arith

-- The state and the result keep the file that was served.
abbrev Keeps : Bytes → FileView → Lru × Served → Bytes × Bytes → Type 0
Keeps path v result r =
    (f : File) × (lookup path result.0.files ≡ some f)
    × (is_file_modified v.checked f.last_modified ≡ false)
    × ((f.content, f.mime_type) ≡ r)

spec_load-Keeps :
    (path : Bytes) (v : FileView) (s : Lru) (r : Bytes × Bytes)
    → v.checked ≡ v.stamped
    → get_file_size v.sized ≤ s.max_size
    → (spec_load path v s).1 ≡ some r
    → Keeps path v (spec_load path v s) r
unfolding spec_load fit is_file_modified
spec_load-Keeps path v s r same room e = elim (Option-cases (load_file path v)) [
  | inl absent ↦ absurd (ground arith)
  | inr (f, found) ↦
      let (size, time) = loaded_facts path v f found in
      (
        file_of f,
        rw (found, spec_load) (ground (arith, same_refl path)),
        ground (arith, ltb_ℤ_irrefl f.last_modified, ap get_file_last_write_time same),
        ground arith,
      )
]

spec_get-Keeps :
    (path : Bytes) (v : FileView) (s : Lru) (r : Bytes × Bytes)
    → v.checked ≡ v.stamped
    → get_file_size v.sized ≤ s.max_size
    → (spec_get path v s).1 ≡ some r
    → Keeps path v (spec_get path v s) r
unfolding spec_get
spec_get-Keeps path v s r same room e = elim (Option-cases (lookup path s.files)) [
  | inl absent ↦
      let there : spec_get path v s ≡ spec_load path v (record s { misses = add_size s.misses 1 }) =
        rw (absent, spec_get) in
      rw there (spec_load-Keeps path v _ r same room (rw (← there) e))
  | inr (f, found) ↦ elim (Bool-cases (is_file_modified v.checked f.last_modified)) [
    | inl stale ↦
        let there : spec_get path v s
            ≡ spec_load path v
                (record s { files = erase path s.files; misses = add_size s.misses 1 }) =
          rw (found, spec_get, stale) in
        rw there (spec_load-Keeps path v _ r same room (rw (← there) e))
    | inr fresh ↦
        (f, rw (found, spec_get, fresh) (ground (arith, same_refl path)), fresh, ground arith)
  ]
]

-- A cached file that `stat` does not report as later than the cached time is served as cached,
-- moves to the front, and counts as a hit.
pub get-hit :
    (path : Bytes) (v : FileView) (c : FileCache) (f : File)
    → IsValid c
    → lookup path (files c) ≡ some f
    → is_file_modified v.checked f.last_modified ≡ false
    → (c' : FileCache) × (get path v c ≡ some (c', some (f.content, f.mime_type)))
      × IsValid c'
      × (files c' ≡ (path, f) ∷ erase path (files c))
      × (c'.cache_hits ≡ add_size c.cache_hits 1)
      × (c'.cache_misses ≡ c.cache_misses)
unfolding spec_get
get-hit path v c f valid held fresh = elim (Option-cases (lookup path c.cache)) [
  | inl absent ↦ absurd (ground (arith, lookup-entries-none path c.cache c.lru_list absent))
  | inr (g, found) ↦
      let listed = valid.coherent.covered path g found in
      let same : f ≡ file_of g =
        ground (arith, lookup-entries path c.cache g c.lru_list found listed) in
      let (c', r, run, valid', seen, served) =
        fresh-Refines path v c g valid found
          (ground (arith, ap (λ (h : File). h.last_modified) same)) in
      let spec : spec_get path v (view c) ≡ (
        record (view c) {
          files = (path, f) ∷ erase path (files c);
          hits = add_size c.cache_hits 1;
        },
        some (f.content, f.mime_type),
      ) =
        rw (held, spec_get, fresh) in
      let seen' = seen ∙ ap (λ s. s.0) spec in
      (
        c',
        run ∙ ap (λ (x : Served). some (c', x)) (served ∙ ap (λ s. s.1) spec),
        valid',
        ap (λ s. s.files) seen',
        ap (λ s. s.hits) seen',
        ap (λ s. s.misses) seen',
      )
]

-- A file that is gone is served from the cache all the same: `stat` fails, the code reads the time 0,
-- and no cached time from 1970 on is earlier than that.
pub get-deleted :
    (path : Bytes) (v : FileView) (c : FileCache) (f : File)
    → IsValid c
    → lookup path (files c) ≡ some f
    → v.checked ≡ none
    → ltb_ℤ f.last_modified (pos 0) ≡ false
    → (c' : FileCache) × (get path v c ≡ some (c', some (f.content, f.mime_type)))
      × (lookup path (files c') ≡ some f)
unfolding is_file_modified
get-deleted path v c f valid held gone time =
    let (c', run, valid', kept, _, _) = get-hit path v c f valid held (ground arith) in
    (c', run, rw kept (ground (arith, same_refl path)))

-- A second `get` of a file that has not changed since the first, and that the budget can hold, is a
-- hit: it serves the same content and type, counts one more hit, and leaves the misses.
pub get-get :
    (path : Bytes) (v : FileView) (c c' : FileCache) (r : Bytes × Bytes)
    → IsValid c
    → c.max_size + get_file_size v.sized < size_mod
    → v.checked ≡ v.stamped
    → get_file_size v.sized ≤ c.max_size
    → get path v c ≡ some (c', some r)
    → (c'' : FileCache) × (get path v c' ≡ some (c'', some r))
      × (c''.cache_hits ≡ add_size c'.cache_hits 1)
      × (c''.cache_misses ≡ c'.cache_misses)
unfolding spec_get
get-get path v c c' r valid room same fits e =
    let (c₁, r₁, run, valid', seen, served) = get-Refines path v c valid room in
    let here : c₁ ≡ c' = ground arith in
    let there : r₁ ≡ some r = ground arith in
    let (f, held, fresh, content) =
      spec_get-Keeps path v (view c) r same fits (sym served ∙ there) in
    let held' : lookup path (files c') ≡ some f =
      ap (λ s. lookup path s.files) (ap view (sym here) ∙ seen) ∙ held in
    let (c'', again, valid'', _, hits, misses) =
      get-hit path v c' f (subst IsValid here valid') held' fresh in
    (c'', again ∙ ap (λ (x : Bytes × Bytes). some (c'', some x)) content, hits, misses)
