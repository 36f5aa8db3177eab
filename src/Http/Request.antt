-- ===== src/Http/Request.antt =====
-- How `handle_http` of Core/protocols/http.hpp reads a request.
use sok.Base.{
  nat_keys, Bool, true, false, List, [], ◌∷◌, ◌++◌, Option, none, some, if◌then◌else◌, ◌==◌, ◌||◌,
}
use sok.Base.Map.{lookup}
use sok.Base.Text.{Bytes, bytes_keys, codes, is_empty}
use sok.Http.Headers.{Headers}
use sok.Http.Scan.{after_blank_line, read_word, getline}

-- How a run of `recv` ends: the peer has closed, there is no more for now, or another error.
pub data Ending : Type 0 where
  closed no_data error : Ending

-- What the socket delivers: the chunks that are there, and the answer after them.
pub record Incoming : Type 0 where
  pub chunks : List Bytes
  pub ending : Ending

unfoldable pub has_blank_line : Bytes → Bool
has_blank_line s = elim (after_blank_line s) [ none ↦ false | some rest ↦ true ]

-- The loop of `recv`: the request so far, and the ending if it came to that.
unfoldable pub read_chunks : Bytes → List Bytes → Ending → Bytes × Option Ending
read_chunks request [] ending = (request, some ending)
read_chunks request (chunk ∷ chunks) ending = elim (has_blank_line (request ++ chunk)) [
  | true ↦ (request ++ chunk, none)
  | false ↦ read_chunks (request ++ chunk) chunks ending
]

unfoldable pub read_request : Incoming → Bytes × Option Ending
read_request i = read_chunks [] i.chunks i.ending

pub record RequestLine : Type 0 where
  pub method : Bytes
  pub path : Bytes
  pub version : Bytes

-- `iss >> method >> path >> version`, the rest of the line skipped, and what is left for the headers.
unfoldable pub read_request_line : Bytes → RequestLine × Bytes
read_request_line request =
    let (method, rest) = read_word request in
    let (path, rest') = read_word rest in
    let (version, rest'') = read_word rest' in
    let after : Bytes = elim (getline rest'') [ none ↦ [] | some (dummy, lines) ↦ lines ] in
    (record { method = method; path = path; version = version }, after)

unfoldable pub is_malformed : RequestLine → Bool
is_malformed l = is_empty l.method || (is_empty l.path || is_empty l.version)

unfoldable pub wants_keep_alive : Headers → Bool
wants_keep_alive headers = elim (lookup (codes "Connection") headers) [
  | none ↦ false
  | some value ↦ value == codes "keep-alive" || value == codes "Keep-Alive"
]

-- The file that a path names under the site's root.
unfoldable pub file_path_of : Bytes → Bytes → Bytes
file_path_of root_dir path =
    let file_path = root_dir ++ path in
    if file_path == root_dir ++ codes "/" || file_path == root_dir
    then root_dir ++ codes "/index.html"
    else file_path

-- The body of a POST: what follows the first blank line.
unfoldable pub body_of : Bytes → Bytes
body_of request = elim (after_blank_line request) [ none ↦ [] | some body ↦ body ]
