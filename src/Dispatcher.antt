-- ===== src/Dispatcher.antt =====
-- Core/utils/ProtocolDispatcher.hpp: which handler a connection goes to, by the first bytes.
pub mod Laws
mod Tests
use sok.Base.{
  nat_keys, ℕ, Bool, true, false, ◌&&◌, ◌||◌, List, [], ◌∷◌, Option, none, some, if◌then◌else◌,
  ◌==◌, ◌>>=◌,
}
use sok.Base.Int.{ℤ}
use sok.Base.Text.{Bytes, codes, starts_with}
use sok.FileCache.{FileCache, FileView}
use sok.Http
use sok.Https
use sok.Https.Objects.{Tls}
use sok.Site.{site_info}
use sok.Yaml.{Fields, ok, throws}

pub data Protocol : Type 0 where
  closed https http unsupported : Protocol

-- The expression `http_regex`: each alternative is anchored at the start.
abbrev pub http_starts : List Bytes
http_starts =
    codes "GET "
    ∷ codes "POST "
    ∷ codes "HEAD "
    ∷ codes "PUT "
    ∷ codes "DELETE "
    ∷ codes "OPTIONS "
    ∷ codes "TRACE "
    ∷ codes "CONNECT "
    ∷ codes "PATCH "
    ∷ codes "HTTP/"
    ∷ []

unfoldable pub matches_any : List Bytes → Bytes → Bool
matches_any [] peeked = false
matches_any (p ∷ ps) peeked = starts_with p peeked || matches_any ps peeked

-- A TLS record of a known type, of a version 3.x; two bytes at least.
unfoldable pub is_tls : Bytes → Bool
is_tls [] = false
is_tls (a ∷ []) = false
is_tls (a ∷ b ∷ rest) = (a == 0x14 || (a == 0x15 || (a == 0x16 || a == 0x17))) && b == 0x03

-- Of up to 16 bytes that are peeked; none where `recv` gives 0 or -1.
unfoldable pub protocol : Bytes → Protocol
unfolding matches_any is_tls
protocol [] = closed
protocol (c ∷ cs) =
    if is_tls (c ∷ cs)
    then https
    else if matches_any http_starts (c ∷ cs)
    then http
    else unsupported

-- A client: what is peeked, and the connection as each handler would find it.
pub record Client : Type 0 where
  pub peeked : Bytes
  pub plain : Http.Connection
  pub secure : Https.Connection

-- The static state of the two handlers.
pub record Handlers : Type 0 where
  pub http_cache : FileCache
  pub https_cache : FileCache
  pub tls : Tls

unfoldable pub run_https : Bytes → (Bytes → FileView) → Client → Handlers → Option (Bool × Handlers)
run_https root_dir disk client s =
    Https.handle_https root_dir disk client.secure s.https_cache s.tls >>= λ h.
    some (h.keep_alive, record s { https_cache = h.cache; tls = h.tls })

unfoldable pub run_http : Bytes → (Bytes → FileView) → Client → Handlers → Option (Bool × Handlers)
run_http root_dir disk client s = Http.handle_http root_dir disk client.plain s.http_cache >>= λ h.
    some (h.keep_alive, record s { http_cache = h.cache })

-- `dispatch_protocol`, with the configuration that `SiteInfo` reads; an exception of it gives false.
unfoldable pub dispatch_protocol :
    Fields → ℤ → (Bytes → FileView) → Client → Handlers → Option (Bool × Handlers)
dispatch_protocol config port disk client s = elim (protocol client.peeked) [
  | closed ↦ some (false, s)
  | unsupported ↦ some (false, s)
  | https ↦ elim (site_info port config) [
    | throws e ↦ some (false, s)
    | ok site ↦ run_https site.root_dir disk client s
  ]
  | http ↦ elim (site_info port config) [
    | throws e ↦ some (false, s)
    | ok site ↦ run_http site.root_dir disk client s
  ]
]
