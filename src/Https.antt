-- ===== src/Https.antt =====
-- Core/protocols/https.hpp: one call on a TLS connection. OpenSSL is an argument: the answers that
-- its calls give. Its objects are numbers, of which the state keeps those that are allocated, so
-- that a second `SSL_free` of one would show. Sizes are below the range of `int`, and allocation
-- does not fail.
pub mod Objects
pub mod Send
pub mod Owns
pub mod Handle
pub mod Delivery
mod Tests
use sok.Base.{
  nat_keys, ℕ, Bool, true, false, not, ◌&&◌, ◌||◌, List, [], ◌∷◌, ◌++◌, Option, none, some,
  if◌then◌else◌, ◌==◌, ◌>>=◌,
}
use sok.Base.Map.{lookup}
use sok.Base.Text.{Bytes, bytes_keys, codes, is_empty}
use sok.FileCache.{FileCache, FileView}
use sok.FileCache
use sok.Http.{bad_request, file_response, echo_response, other_response}
use sok.Http.Headers.{parse_headers}
use sok.Http.Request.{
  Incoming, Ending, closed, no_data, error, RequestLine, read_request, read_request_line,
  is_malformed, wants_keep_alive, file_path_of, body_of,
}
use sok.Http.Send.{Response}
use sok.Https.Send.{SslAnswer, Stream, send_https_response}
use sok.Https.Objects.{Tls, ssl_new, release}

-- What `SSL_accept` answers: the handshake is done, or wants more, or has failed.
pub data Handshake : Type 0 where
  done wants failed : Handshake

-- `peeked` is the byte that `recv` shows, if it shows one. `incoming` is what `SSL_read` gives:
-- `closed` for 0, `no_data` for WANT_READ and WANT_WRITE. `mapped` is the file as `open` and `mmap`
-- show it.
pub record Connection : Type 0 where
  pub client_fd : ℕ
  pub peeked : Option ℕ
  pub handshake : Handshake
  pub incoming : Incoming
  pub answers : List SslAnswer
  pub mapped : Option Bytes

pub record Handled : Type 0 where
  pub keep_alive : Bool
  pub cache : FileCache
  pub tls : Tls
  pub stream : Stream

abbrev pub untouched : Connection → Stream
untouched conn = record { answers = conn.answers; sent = []; broken_pipe = false }

abbrev pub returns : Connection → Bool → FileCache → Tls → Handled
returns conn keep_alive cache tls = record {
  keep_alive = keep_alive;
  cache = cache;
  tls = tls;
  stream = untouched conn;
}

-- A response is sent; the object is freed unless the connection is to be kept and is whole.
unfoldable pub finish : Connection → FileCache → Tls → Bool → Response → Option Handled
finish conn cache tls keep_alive r = send_https_response r conn.mapped conn.answers >>= λ s.
    let keep = not s.broken_pipe && keep_alive in
    some (record {
      keep_alive = keep;
      cache = cache;
      tls = if keep then tls else release conn.client_fd tls;
      stream = s;
    })

unfoldable pub dispatch_method :
    Bytes
    → (Bytes → FileView)
    → Connection
    → FileCache
    → Tls
    → Bytes
    → RequestLine
    → Bool
    → Option Handled
dispatch_method root_dir disk conn cache tls request l keep_alive =
    if l.method == codes "GET" || l.method == codes "HEAD"
    then (let file_path = file_path_of root_dir l.path in
        FileCache.get file_path (disk file_path) cache >>= λ (cache', file).
        finish conn cache' tls keep_alive (file_response l keep_alive file_path file))
    else if l.method == codes "POST"
    then finish conn cache tls keep_alive (echo_response l keep_alive (body_of request))
    else finish conn cache tls keep_alive (other_response l keep_alive)

-- The malformed request is answered under its own method.
unfoldable pub handle_request :
    Bytes → (Bytes → FileView) → Connection → FileCache → Tls → Bytes → Option Handled
handle_request root_dir disk conn cache tls request =
    let (l, lines) = read_request_line request in
    parse_headers lines >>= λ headers.
    if is_malformed l
    then finish conn cache tls false (record bad_request { method = l.method })
    else dispatch_method root_dir disk conn cache tls request l (wants_keep_alive headers)

-- After the handshake: a close frees the object, even behind data that has been read.
unfoldable pub handle_read :
    Bytes
    → (Bytes → FileView)
    → Connection
    → FileCache
    → Tls
    → Bytes
    → Option Ending
    → Option Handled
handle_read root_dir disk conn cache tls request (some closed) =
    some (returns conn false cache (release conn.client_fd tls))
handle_read root_dir disk conn cache tls request (some no_data) = some (returns conn true cache tls)
handle_read root_dir disk conn cache tls request (some error) =
    if is_empty request
    then finish conn cache tls false bad_request
    else handle_request root_dir disk conn cache tls request
handle_read root_dir disk conn cache tls request none =
    if is_empty request
    then finish conn cache tls false bad_request
    else handle_request root_dir disk conn cache tls request

-- `SSL_accept` and what follows; a failed handshake leaves the object to the caller.
unfoldable pub handle_accept :
    Bytes → (Bytes → FileView) → Connection → FileCache → Tls → Handshake → Option Handled
handle_accept root_dir disk conn cache tls wants = some (returns conn true cache tls)
handle_accept root_dir disk conn cache tls failed = some (returns conn false cache tls)
handle_accept root_dir disk conn cache tls done =
    let (request, ending) = read_request conn.incoming in
    handle_read root_dir disk conn cache tls request ending

-- The first byte of a handshake record.
unfoldable pub is_handshake : Option ℕ → Bool
is_handshake none = false
is_handshake (some b) = b == 0x16

-- An object is made only for a first byte 0x16; a known descriptor keeps its own.
unfoldable pub handle_https :
    Bytes → (Bytes → FileView) → Connection → FileCache → Tls → Option Handled
handle_https root_dir disk conn cache tls = elim (lookup conn.client_fd tls.ssl_map) [
  | none ↦
      if is_handshake conn.peeked
      then handle_accept root_dir disk conn cache (ssl_new conn.client_fd tls) conn.handshake
      else some (returns conn false cache tls)
  | some ssl ↦ handle_accept root_dir disk conn cache tls conn.handshake
]

-- What the worker of Core/mstd/EpollManager.hpp does with `ssl_map` after the call.
unfoldable pub cleanup : Connection → Handled → Tls
cleanup conn h = if h.keep_alive then h.tls else release conn.client_fd h.tls
