-- ===== src/Dispatcher/Tests.antt =====
-- Core/utils/ProtocolDispatcher.hpp on a small request.
use sok.Base.{false, [], ◌∷◌, none, ◌≡◌, refl, arith}
use sok.Base.Text.{Bytes, codes}
use sok.Dispatcher.{Client, Handlers, http, https, protocol}
use sok.Dispatcher.Laws.{IsSound}
use sok.FileCache
use sok.FileCache.{FileView, get_file_size}
use sok.FileCache.Refine.{init-IsValid}
use sok.Http.Request.{no_data}
use sok.Https
use sok.Https.Objects.{contains}

get_goes_to_http : protocol (codes "GET /index.html ") ≡ http
unfolding protocol
get_goes_to_http = refl

hello_goes_to_https : protocol (0x16 ∷ 0x03 ∷ 0x01 ∷ []) ≡ https
unfolding protocol
hello_goes_to_https = refl

abbrev disk : Bytes → FileView
disk path = record { checked = none; is_open = false; sized = none; readable = []; stamped = none }

abbrev client : Client
client = record {
  peeked = codes "GET / HTTP/1.1";
  plain = record {
    incoming = record { chunks = []; ending = no_data };
    answers = [];
    opened = none;
  };
  secure = record {
    client_fd = 7;
    peeked = none;
    handshake = Https.done;
    incoming = record { chunks = []; ending = no_data };
    answers = [];
    mapped = none;
  };
}

abbrev start : Handlers
start = record {
  http_cache = FileCache.init 50;
  https_cache = FileCache.init 50;
  tls = record { ssl_map = []; live = []; next = 0; double_free = false };
}

start-IsSound : IsSound start
unfolding contains
start-IsSound = record {
  http_valid = init-IsValid 50;
  https_valid = init-IsValid 50;
  owned = record {
    entries = λ fd ssl e. cc;
    apart = λ fd fd' ssl e e'. cc;
    no_leak = λ ssl e. absurd (ground arith);
    fresh = λ ssl e. absurd (ground arith);
    freed_once = refl;
  };
}
