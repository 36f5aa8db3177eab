-- ===== src/Https/Tests.antt =====
-- Core/protocols/https.hpp on small connections, and its theorems at such inputs.
use sok.Base.{true, false, [], ◌∷◌, ◌++◌, none, some, ◌≡◌, refl, arith, take, nat_keys}
use sok.Base.Map.{lookup}
use sok.Base.Text.{Bytes, codes}
use sok.FileCache
use sok.FileCache.{FileCache, FileView, get_file_size, size_mod}
use sok.FileCache.Invariant.{IsValid}
use sok.FileCache.Refine.{init-IsValid}
use sok.Http.Scan.{after_blank_line}
use sok.Http.Request.{has_blank_line, closed, read_request, read_chunks}
use sok.Http.Send.{Response, head}
use sok.Https.{
  Connection, Handled, done, wants, handle_https, handle_accept, handle_read, is_handshake, returns,
  cleanup,
}
use sok.Https.Delivery.{Sends, send_https_response-file}
use sok.Https.Handle.{handle_https-Owns}
use sok.Https.Objects.{Tls, contains, remove, ssl_new, ssl_free, release}
use sok.Https.Owns.{Owns}
use sok.Https.Send.{wrote, send_https_response}

abbrev no_objects : Tls
no_objects = record { ssl_map = []; live = []; next = 0; double_free = false }

abbrev hello : Connection
hello = record {
  client_fd = 7;
  peeked = some 0x16;
  handshake = done;
  incoming = record { chunks = codes "GET / HTTP/1.1" ∷ []; ending = closed };
  answers = [];
  mapped = none;
}

abbrev disk : Bytes → FileView
disk path = record { checked = none; is_open = false; sized = none; readable = []; stamped = none }

-- The handshake that waits has left an object; the peer closes on the next call.
abbrev waiting : Tls
waiting = record { ssl_map = (7, 0) ∷ []; live = 0 ∷ []; next = 1; double_free = false }

program : Unit {0}
unfolding handle_https handle_accept handle_read is_handshake ssl_new ssl_free release contains
    remove read_request read_chunks
program = tt

first_call :
    handle_https
      (codes "www")
      disk
      (record hello { handshake = wants })
      (FileCache.init 100)
      no_objects
    ≡ some (returns hello true (FileCache.init 100) waiting)
unfolding program
first_call = refl

waiting-Owns : Owns waiting
unfolding contains
waiting-Owns = record {
  entries = λ fd ssl e. ground arith;
  apart = λ fd fd' ssl e e'. ground arith;
  no_leak = λ ssl e. (7, ground arith);
  fresh = λ ssl e. ground arith;
  freed_once = refl;
}

abbrev closed_result : Handled
closed_result =
    returns hello false (FileCache.init 100)
      (record { ssl_map = []; live = []; next = 1; double_free = false })

handle_https-Owns_example :
    Owns closed_result.tls
    × Owns (cleanup hello closed_result)
    × (lookup 7 (cleanup hello closed_result).ssl_map ≡ none)
    × IsValid (FileCache.init 100)
unfolding program FileCache.init get_file_size has_blank_line after_blank_line
handle_https-Owns_example =
    handle_https-Owns (codes "www") disk hello (FileCache.init 100) waiting closed_result
      (init-IsValid 100) (λ p. omega arith) waiting-Owns refl

abbrev page : Response
page = record {
  version = codes "HTTP/1.1";
  status_code = 200;
  status_text = codes "OK";
  mime = codes "text/plain";
  body = codes "hello";
  keep_alive = true;
  method = codes "GET";
  file_path = codes "www/a";
}

-- The head declares five bytes, and nine are sent.
send_https_response-file_example :
    Sends
      (send_https_response page (some (codes "good day!")) (
        wrote 300
        ∷ wrote 3
        ∷ wrote 7
        ∷ wrote 0
        ∷ wrote 0
        ∷ wrote 0
        ∷ wrote 0
        ∷ wrote 0
        ∷ wrote 0
        ∷ wrote 0
        ∷ []))
      (take 301 (head page) ++ codes "good day!")
send_https_response-file_example =
    send_https_response-file page (codes "good day!") 300
      (wrote 3 ∷ wrote 7 ∷ wrote 0 ∷ wrote 0 ∷ wrote 0 ∷ wrote 0 ∷ wrote 0 ∷ wrote 0 ∷ wrote 0 ∷ [])
      refl refl refl tt (omega arith)
