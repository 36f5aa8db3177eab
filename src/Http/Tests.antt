-- ===== src/Http/Tests.antt =====
-- Core/protocols/http.hpp on small requests, and its theorems at such inputs.
use sok.Base.{
  nat_keys, ℕ, zero, suc, ◌+◌, ◌<◌, Bool, true, false, List, [], ◌∷◌, ◌++◌, Option, none, some, ◌≡◌,
  ◌≢◌, refl, arith, not, if◌then◌else◌, take, length,
}
use sok.Base.Map.{Map, lookup}
use sok.Base.Text.{Bytes, bytes_keys, codes}
use sok.FileCache
use sok.FileCache.{FileCache, FileView, Served, get_file_size, size_mod}
use sok.Http.{Connection, handle_http, dispatch_method, untouched}
use sok.Http.Decimal.{value_from, print_ℕ}
use sok.Http.Handle.{handle_http_partial, handle_http-print_request}
use sok.Http.Headers.{
  Headers, IsField, parse_headers, parse_lines, add_header, print_headers, insert_all,
  parse_headers-print_headers, parse_headers_total,
}
use sok.Http.Parse.{IsRequestLine, print_request}
use sok.Http.Request.{RequestLine, no_data, has_blank_line, wants_keep_alive}
use sok.Http.Scan.{
  trim_start, trim_end, is_blank_or_return, is_space, split_at, getline, after_blank_line,
}
use sok.Http.Send.{wrote, Socket, Response, send_http_response, head}
use sok.Http.Send.Delivery.{
  send_http_response-Sends, send_http_response_stuck, send_http_response-head,
}
use sok.Http.Send.Loops.{Sends}
use sok.Http.Send.Head.{status_line, head-parse_headers}

program : Unit {0}
unfolding trim_start trim_end is_blank_or_return is_space split_at getline parse_headers add_header
    parse_lines print_headers has_blank_line after_blank_line handle_http send_http_response head
    print_ℕ
program = tt

abbrev host_fields : List (Bytes × Bytes)
host_fields =
    (codes "Host", codes "a.org:80")
    ∷ (codes "Connection", codes "close")
    ∷ (codes "Connection", codes "keep-alive")
    ∷ []

host-IsField : IsField (codes "Host", codes "a.org:80")
unfolding program
host-IsField = record {
  name_colon = omega arith;
  name_line = omega arith;
  name_trimmed = refl;
  value_line = omega arith;
  value_start = refl;
  value_end = refl;
}

close-IsField : IsField (codes "Connection", codes "close")
unfolding program
close-IsField = record {
  name_colon = omega arith;
  name_line = omega arith;
  name_trimmed = refl;
  value_line = omega arith;
  value_start = refl;
  value_end = refl;
}

keep-IsField : IsField (codes "Connection", codes "keep-alive")
unfolding program
keep-IsField = record {
  name_colon = omega arith;
  name_line = omega arith;
  name_trimmed = refl;
  value_line = omega arith;
  value_start = refl;
  value_end = refl;
}

-- The last line has no colon and no end.
parse_headers_total_example :
    (headers : Headers) × (parse_headers (codes "Host : a\r\nnonsense") ≡ some headers)
parse_headers_total_example = parse_headers_total (codes "Host : a\r\nnonsense")

parse_headers-print_headers_example :
    parse_headers (print_headers host_fields (codes "body")) ≡ some (insert_all host_fields [])
parse_headers-print_headers_example =
    parse_headers-print_headers host_fields (codes "body")
      (host-IsField, (close-IsField, (keep-IsField, tt)))

-- A line without a colon is passed over, and white space at the ends goes.
parse_headers_loose :
    parse_headers (codes "A:  1 \r\nnothing\r\nB :2\r\n\r\nC: 3")
    ≡ some ((codes "A", codes "1") ∷ (codes "B", codes "2") ∷ [])
unfolding program
parse_headers_loose = refl

abbrev page : Response
page = record {
  version = codes "HTTP/1.1";
  status_code = 200;
  status_text = codes "OK";
  mime = codes "text/plain";
  body = codes "hello";
  keep_alive = true;
  method = codes "GET";
  file_path = [];
}

page-head :
    head page
    ≡ codes
        "HTTP/1.1 200 OK\r\nContent-Type: text/plain\r\nServer: SOK\r\nContent-Length: 5\r\nConnection: keep-alive\r\n\r\n"
unfolding program
page-head = refl

type-IsField : IsField (codes "Content-Type", codes "text/plain")
unfolding program
type-IsField = record {
  name_colon = omega arith;
  name_line = omega arith;
  name_trimmed = refl;
  value_line = omega arith;
  value_start = refl;
  value_end = refl;
}

head-parse_headers_example :
    (rest : Bytes) × (headers : Map Bytes Bytes) × (digits : Bytes) × (getline (head page)
      ≡ some (status_line page, rest))
    × (parse_headers rest ≡ some headers)
    × (lookup (codes "Content-Length") headers ≡ some digits)
    × (value_from 0 digits ≡ 5)
    × (wants_keep_alive headers ≡ true)
head-parse_headers_example = head-parse_headers page (omega arith) (omega arith) type-IsField

-- The first write takes the status line only; the rest of the head never goes out.
send_http_response-Sends_example :
    Sends
      (send_http_response page none
        (wrote 17 ∷ wrote 2 ∷ wrote 9 ∷ wrote 1 ∷ wrote 1 ∷ wrote 1 ∷ []))
      (take 17 (head page) ++ codes "hello")
send_http_response-Sends_example =
    send_http_response-Sends page none (wrote 17)
      (wrote 2 ∷ wrote 9 ∷ wrote 1 ∷ wrote 1 ∷ wrote 1 ∷ []) refl refl refl (omega arith)
      (omega arith)

abbrev file_page : Response
file_page = record page { file_path = codes "www/a" }

send_http_response_stuck_example :
    send_http_response file_page
      (some (codes "hell"))
      (wrote 200 ∷ wrote 9 ∷ wrote 9 ∷ wrote 9 ∷ [])
    ≡ none
send_http_response_stuck_example =
    send_http_response_stuck file_page (codes "hell") (wrote 200) (wrote 9 ∷ wrote 9 ∷ wrote 9 ∷ [])
      refl refl refl tt (omega arith)

abbrev echo : Response
echo = record page { method = codes "POST" }

send_http_response-head_example :
    (s : Socket) × (send_http_response echo none (wrote 300 ∷ []) ≡ some s)
    × (s.sent ≡ take 300 (head echo))
    × (s.broken_pipe ≡ false)
send_http_response-head_example =
    send_http_response-head echo none (wrote 300) [] (λ e. ground (arith, e))

abbrev get_line : RequestLine
get_line = record { method = codes "GET"; path = codes "/a.txt"; version = codes "HTTP/1.1" }

get_line-IsRequestLine : IsRequestLine get_line
unfolding is_space
get_line-IsRequestLine = record {
  method = ((refl, (refl, (refl, tt))), refl);
  path = ((refl, (refl, (refl, (refl, (refl, (refl, tt)))))), refl);
  version = ((refl, (refl, (refl, (refl, (refl, (refl, (refl, (refl, tt)))))))), refl);
}

-- A file of three bytes at every path.
abbrev disk : Bytes → FileView
disk path = record {
  checked = none;
  is_open = true;
  sized = some (record { mtime = sok.Base.Int.pos 5; size = 3 });
  readable = codes "abc";
  stamped = none;
}

abbrev requested : Connection
requested = record {
  incoming = record { chunks = print_request get_line host_fields [] ∷ []; ending = no_data };
  answers = wrote 500 ∷ wrote 3 ∷ [];
  opened = some (codes "abc");
}

handle_http-print_request_example :
    handle_http (codes "www") disk requested (FileCache.init 100)
    ≡ dispatch_method
        (codes "www")
        disk
        requested
        (FileCache.init 100)
        (print_request get_line host_fields [])
        get_line
        (wants_keep_alive (insert_all host_fields []))
handle_http-print_request_example =
    handle_http-print_request (codes "www") disk requested (FileCache.init 100) get_line host_fields
      [] [] get_line-IsRequestLine (host-IsField, (close-IsField, (keep-IsField, tt))) refl

abbrev in_part : Connection
in_part = record requested {
  incoming = record { chunks = codes "GET /a.t" ∷ codes "xt HTTP" ∷ []; ending = no_data };
}

handle_http_partial_example :
    handle_http (codes "www") disk in_part (FileCache.init 100)
    ≡ some (record { keep_alive = true; cache = FileCache.init 100; socket = untouched in_part })
unfolding program
handle_http_partial_example =
    handle_http_partial (codes "www") disk in_part (FileCache.init 100) refl refl
