-- ===== src/Http.antt =====
-- Core/protocols/http.hpp: one HTTP request on a non-blocking socket, from `recv` to the last write.
-- The peer and the kernel are arguments: what the socket delivers, what they answer to the writes,
-- and what the file system holds. `none` means that the call has not returned yet. Logging leaves
-- no trace here. Allocation does not fail, so nothing throws, and the handlers of exceptions have
-- no work.
pub mod Scan
pub mod Headers
pub mod Decimal
pub mod Request
pub mod Send
pub mod Parse
pub mod Handle
mod Tests
use sok.Base.{
  nat_keys, ℕ, Bool, true, false, ◌&&◌, ◌||◌, List, [], ◌∷◌, ◌++◌, Option, none, some,
  if◌then◌else◌, ◌==◌, ◌>>=◌,
}
use sok.Base.Text.{Bytes, bytes_keys, codes, is_empty}
use sok.FileCache.{FileCache, FileView, Served}
use sok.FileCache
use sok.Http.Headers.{parse_headers}
use sok.Http.Request.{
  Incoming, Ending, closed, no_data, error, RequestLine, read_request, read_request_line,
  is_malformed, wants_keep_alive, file_path_of, body_of,
}
use sok.Http.Send.{Answer, Socket, Response, send_http_response}

-- One connection at the time of the call: `opened` is what `open` finds for the path that is sent.
pub record Connection : Type 0 where
  pub incoming : Incoming
  pub answers : List Answer
  pub opened : Option Bytes

-- What the call returns, with the cache and the socket after it.
pub record Handled : Type 0 where
  pub keep_alive : Bool
  pub cache : FileCache
  pub socket : Socket

-- The responses that are built in the source, without a file.
unfoldable pub plain_response : Bytes → ℕ → Bytes → Bytes → Bool → Bytes → Response
plain_response version status_code status_text body keep_alive method = record {
  version = version;
  status_code = status_code;
  status_text = status_text;
  mime = codes "text/plain";
  body = body;
  keep_alive = keep_alive;
  method = method;
  file_path = [];
}

abbrev pub bad_request : Response
bad_request = record {
  version = codes "HTTP/1.1";
  status_code = 400;
  status_text = codes "Bad Request";
  mime = codes "text/plain";
  body = codes "400 Bad Request";
  keep_alive = false;
  method = codes "GET";
  file_path = [];
}

-- The answer to a GET or HEAD: the file, or that there is none.
unfoldable pub file_response : RequestLine → Bool → Bytes → Served → Response
unfolding plain_response
file_response l keep_alive file_path none =
    plain_response l.version 404 (codes "Not Found") (codes "404 Not Found") keep_alive l.method
file_response l keep_alive file_path (some (content, mime)) = record {
  version = l.version;
  status_code = 200;
  status_text = codes "OK";
  mime = mime;
  body = content;
  keep_alive = keep_alive;
  method = l.method;
  file_path = file_path;
}

-- A response is sent; the connection is kept if that was asked for and the pipe is whole.
unfoldable pub finish : Connection → FileCache → Bool → Response → Option Handled
finish conn cache keep_alive r = send_http_response r conn.opened conn.answers >>= λ s.
    some (record {
      keep_alive = if s.broken_pipe then false else keep_alive;
      cache = cache;
      socket = s;
    })

-- The answers to a POST, which is meant as an echo, and to any other method.
unfoldable pub echo_response : RequestLine → Bool → Bytes → Response
unfolding plain_response
echo_response l keep_alive body = plain_response l.version 200 (codes "OK") body keep_alive l.method

unfoldable pub other_response : RequestLine → Bool → Response
unfolding plain_response
other_response l keep_alive =
    plain_response l.version 501 (codes "Not Implemented") (codes "501 Not Implemented") keep_alive
      l.method

-- The branches on the method.
unfoldable pub dispatch_method :
    Bytes
    → (Bytes → FileView)
    → Connection
    → FileCache
    → Bytes
    → RequestLine
    → Bool
    → Option Handled
dispatch_method root_dir disk conn cache request l keep_alive =
    if l.method == codes "GET" || l.method == codes "HEAD"
    then (let file_path = file_path_of root_dir l.path in
        FileCache.get file_path (disk file_path) cache >>= λ (cache', file).
        finish conn cache' keep_alive (file_response l keep_alive file_path file))
    else if l.method == codes "POST"
    then finish conn cache keep_alive (echo_response l keep_alive (body_of request))
    else finish conn cache keep_alive (other_response l keep_alive)

-- From the request line on.
unfoldable pub handle_request :
    Bytes → (Bytes → FileView) → Connection → FileCache → Bytes → Option Handled
handle_request root_dir disk conn cache request =
    let (l, lines) = read_request_line request in
    if is_malformed l
    then finish conn cache false bad_request
    else (parse_headers lines >>= λ headers.
        dispatch_method root_dir disk conn cache request l (wants_keep_alive headers))

-- No data is read: the socket is left as it is.
abbrev pub untouched : Connection → Socket
untouched conn = record { answers = conn.answers; sent = []; broken_pipe = false }

unfoldable pub is_waiting : Option Ending → Bool
is_waiting none = false
is_waiting (some no_data) = true
is_waiting (some closed) = false
is_waiting (some error) = false

unfoldable pub handle_http : Bytes → (Bytes → FileView) → Connection → FileCache → Option Handled
handle_http root_dir disk conn cache =
    let (request, ending) = read_request conn.incoming in
    if is_waiting ending
    then some (record { keep_alive = true; cache = cache; socket = untouched conn })
    else if is_empty request
    then finish conn cache false bad_request
    else handle_request root_dir disk conn cache request
