-- ===== src/FileCache/Mime.antt =====
-- `get_mime_type` of Core/mstd/fileCache.hpp.
use sok.Base.{
  nat_keys, ℕ, ◌+◌, ◌&&◌, [], ◌∷◌, ◌++◌, Option, none, some, leb, if◌then◌else◌, ◌==◌, ◌≡◌, refl,
  arith, map, ap,
}
use sok.Base.Map.{Map, lookup}
use sok.Base.Text.{Bytes, bytes_keys, codes, Lacks}

-- `::tolower` in the C locale.
unfoldable pub to_lower : ℕ → ℕ
to_lower c = if leb b'A' c && leb c b'Z' then c + 32 else c

-- What follows the last dot: `find_last_of('.')` and `substr(dot_pos + 1)`.
unfoldable pub extension : Bytes → Option Bytes
extension [] = none
extension (c ∷ cs) = elim (extension cs) [
  | some ext ↦ some ext
  | none ↦ if c == b'.' then some cs else none
]

abbrev pub octet_stream : Bytes
octet_stream = codes "application/octet-stream"

abbrev pub mime_types : Map Bytes Bytes
mime_types =
    (codes "html", codes "text/html; charset=utf-8")
    ∷ (codes "htm", codes "text/html; charset=utf-8")
    ∷ (codes "css", codes "text/css; charset=utf-8")
    ∷ (codes "js", codes "application/javascript; charset=utf-8")
    ∷ (codes "json", codes "application/json; charset=utf-8")
    ∷ (codes "png", codes "image/png")
    ∷ (codes "jpg", codes "image/jpeg")
    ∷ (codes "jpeg", codes "image/jpeg")
    ∷ (codes "gif", codes "image/gif")
    ∷ (codes "svg", codes "image/svg+xml")
    ∷ (codes "txt", codes "text/plain; charset=utf-8")
    ∷ (codes "ico", codes "image/x-icon")
    ∷ []

unfoldable pub or_octet_stream : Option Bytes → Bytes
or_octet_stream none = octet_stream
or_octet_stream (some t) = t

unfoldable pub get_mime_type : Bytes → Bytes
unfolding extension to_lower or_octet_stream
get_mime_type path = elim (extension path) [
  | none ↦ octet_stream
  | some ext ↦ or_octet_stream (lookup (map to_lower ext) mime_types)
]

extension-none : (cs : Bytes) → Lacks b'.' cs → extension cs ≡ none
unfolding extension
extension-none [] h = refl
extension-none (c ∷ cs) h = ground (arith, extension-none cs h.1)

extension-append : (stem ext : Bytes) → Lacks b'.' ext → extension (stem ++ b'.' ∷ ext) ≡ some ext
unfolding extension
extension-append [] ext h = ground (arith, extension-none ext h)
extension-append (c ∷ stem) ext h = ground (arith, extension-append stem ext h)

-- The type of a path is the table's entry for what follows its last dot, in whatever case that is
-- written, and octet-stream where the table has none or the path has no dot.
pub get_mime_type-extension :
    (stem ext lower plain : Bytes)
    → Lacks b'.' ext
    → Lacks b'.' plain
    → map to_lower ext ≡ lower
    → (get_mime_type (stem ++ b'.' ∷ ext) ≡ or_octet_stream (lookup lower mime_types))
      × (get_mime_type plain ≡ octet_stream)
unfolding get_mime_type
get_mime_type-extension stem ext lower plain h h' e = (
  rw (extension-append stem ext h, get_mime_type)
      (ap (λ l. or_octet_stream (lookup l mime_types)) e),
  rw (extension-none plain h', get_mime_type),
)
