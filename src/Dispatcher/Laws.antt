-- ===== src/Dispatcher/Laws.antt =====
-- What Core/utils/ProtocolDispatcher.hpp keeps, and where requests go.
use sok.Base.{
  nat_keys, ◌+◌, ◌<◌, Bool, List, [], ◌∷◌, ◌++◌, none, some, ◌≡◌, ◌⊎◌, inl, inr, refl, arith, take,
  Option-cases, subst,
}
use sok.Base.Int.{ℤ}
use sok.Base.Map.{lookup}
use sok.Base.Text.{Bytes, bytes_keys, codes}
use sok.Dispatcher.{
  Protocol, closed, https, http, unsupported, protocol, Client, Handlers, run_https, run_http,
  dispatch_protocol,
}
use sok.FileCache.{FileView, FileCache, get_file_size, size_mod}
use sok.FileCache.Invariant.{IsValid}
use sok.Http
use sok.Http.Handle.{handle_http-IsValid}
use sok.Http.Parse.{print_request}
use sok.Http.Request.{RequestLine}
use sok.Https
use sok.Https.Handle.{handle_https-Keeps}
use sok.Https.Objects.{Tls, ssl_new, release}
use sok.Https.Owns.{Owns, ssl_new-Owns, release-Owns}
use sok.Site.{site_info}
use sok.Yaml.{Result-cases, Fields}

abbrev pub methods : List Bytes
methods =
    codes "GET"
    ∷ codes "POST"
    ∷ codes "HEAD"
    ∷ codes "PUT"
    ∷ codes "DELETE"
    ∷ codes "OPTIONS"
    ∷ codes "TRACE"
    ∷ codes "CONNECT"
    ∷ codes "PATCH"
    ∷ []

abbrev pub OneOf : List Bytes → Bytes → Type 0
OneOf [] m = ⊥
OneOf (x ∷ xs) m = (m ≡ x) ⊎ OneOf xs m

abbrev EachGoes : Bytes → List Bytes → Type 0
EachGoes rest [] = Unit {0}
EachGoes rest (x ∷ xs) = (protocol (take 16 (x ++ 32 ∷ rest)) ≡ http) × EachGoes rest xs

OneOf-EachGoes :
    (rest m : Bytes) (ms : List Bytes)
    → EachGoes rest ms
    → OneOf ms m
    → protocol (take 16 (m ++ 32 ∷ rest)) ≡ http
OneOf-EachGoes rest m [] g h = absurd h
OneOf-EachGoes rest m (x ∷ xs) g (inl e) = rw e g.0
OneOf-EachGoes rest m (x ∷ xs) g (inr h) = OneOf-EachGoes rest m xs g.1 h

methods-EachGoes : (rest : Bytes) → EachGoes rest methods
unfolding protocol
methods-EachGoes rest = (refl, (refl, (refl, (refl, (refl, (refl, (refl, (refl, (refl, tt)))))))))

-- The first 16 bytes of a request with one of the nine methods send it to the HTTP handler.
pub protocol-print_request :
    (l : RequestLine) (fields : List (Bytes × Bytes)) (body : Bytes)
    → OneOf methods l.method
    → protocol (take 16 (print_request l fields body)) ≡ http
unfolding print_request
protocol-print_request l fields body m = OneOf-EachGoes _ l.method methods (methods-EachGoes _) m

-- The caches are valid and the objects of OpenSSL are owned.
pub record IsSound (s : Handlers) : Type 0 where
  pub http_valid : IsValid s.http_cache
  pub https_valid : IsValid s.https_cache
  pub owned : Owns s.tls

-- The sizes of all files fit beside the budget.
abbrev pub Room : (Bytes → FileView) → FileCache → Type 0
Room disk cache = (p : Bytes) → cache.max_size + get_file_size (disk p).sized < size_mod

-- The caches are valid, and `P` holds of the objects.
pub record Holds (P : Tls → Type 0) (s : Handlers) : Type 0 where
  pub http_valid : IsValid s.http_cache
  pub https_valid : IsValid s.https_cache
  pub kept : P s.tls

Protocol-cases : (p : Protocol) → (p ≡ closed) ⊎ ((p ≡ unsupported) ⊎ ((p ≡ https) ⊎ (p ≡ http)))
Protocol-cases closed = inl refl
Protocol-cases unsupported = inr (inl refl)
Protocol-cases https = inr (inr (inl refl))
Protocol-cases http = inr (inr (inr refl))

-- What survives that the connection's own object is made and freed holds after a dispatched call.
module _ (root_dir : Bytes) (disk : Bytes → FileView) (client : Client) (P : Tls → Type 0)
    (release-P : (t : Tls) → P t → P (release client.secure.client_fd t))
    (ssl_new-P : (t : Tls)
      → P t
      → lookup client.secure.client_fd t.ssl_map ≡ none
      → P (ssl_new client.secure.client_fd t)) where
  run_https-Holds :
      (s s' : Handlers) (keep : Bool)
      → Holds P s
      → Room disk s.https_cache
      → run_https root_dir disk client s ≡ some (keep, s')
      → Holds P s'
  unfolding run_https
  run_https-Holds s s' keep sound room e =
      elim (Option-cases (Https.handle_https root_dir disk client.secure s.https_cache s.tls)) [
        | inl stuck ↦ absurd (ground arith)
        | inr (h, ran) ↦
            let (kept, valid) =
              handle_https-Keeps client.secure P release-P root_dir disk s.https_cache
                sound.https_valid room s.tls (ssl_new-P s.tls sound.kept) sound.kept h ran in
            let after : Handlers = record s { https_cache = h.cache; tls = h.tls } in
            subst (Holds P) {x = after} (ground arith)
              (record { http_valid = sound.http_valid; https_valid = valid; kept = kept })
      ]

  run_http-Holds :
      (s s' : Handlers) (keep : Bool)
      → Holds P s
      → Room disk s.http_cache
      → run_http root_dir disk client s ≡ some (keep, s')
      → Holds P s'
  unfolding run_http
  run_http-Holds s s' keep sound room e =
      elim (Option-cases (Http.handle_http root_dir disk client.plain s.http_cache)) [
        | inl stuck ↦ absurd (ground arith)
        | inr (h, ran) ↦
            let valid =
              handle_http-IsValid root_dir disk client.plain s.http_cache sound.http_valid room h
                ran in
            let after : Handlers = record s { http_cache = h.cache } in
            subst (Holds P) {x = after} (ground arith)
              (record { http_valid = valid; https_valid = sound.https_valid; kept = sound.kept })
      ]

pub dispatch_protocol-Holds :
    (config : Fields) (port : ℤ) (disk : Bytes → FileView) (client : Client) (P : Tls → Type 0)
    → ((t : Tls) → P t → P (release client.secure.client_fd t))
    → ((t : Tls)
        → P t
        → lookup client.secure.client_fd t.ssl_map ≡ none
        → P (ssl_new client.secure.client_fd t))
    → (s s' : Handlers) (keep : Bool) → Holds P s
    → Room disk s.http_cache
    → Room disk s.https_cache
    → dispatch_protocol config port disk client s ≡ some (keep, s')
    → Holds P s'
unfolding dispatch_protocol
dispatch_protocol-Holds config port disk client P r-P n-P s s' keep sound room room' e =
    elim (Protocol-cases (protocol client.peeked)) [
      | inl none' ↦ subst (Holds P) {x = s} (ground arith) sound
      | inr (inl other) ↦ subst (Holds P) {x = s} (ground arith) sound
      | inr (inr (inl secure)) ↦ elim (Result-cases (site_info port config)) [
        | inr (bad, thrown) ↦ subst (Holds P) {x = s} (ground arith) sound
        | inl (site, found) ↦
            run_https-Holds site.root_dir disk client P r-P n-P s s' keep sound room' (ground arith)
      ]
      | inr (inr (inr plain)) ↦ elim (Result-cases (site_info port config)) [
        | inr (bad, thrown) ↦ subst (Holds P) {x = s} (ground arith) sound
        | inl (site, found) ↦
            run_http-Holds site.root_dir disk client P r-P n-P s s' keep sound room (ground arith)
      ]
    ]

-- Whatever the client sends and whatever the configuration holds, a dispatched call that returns
-- leaves both caches valid and every object of OpenSSL with its one owner. (All files' sizes fit
-- beside the budgets in `size_t`.)
pub dispatch_protocol-IsSound :
    (config : Fields) (port : ℤ) (disk : Bytes → FileView) (client : Client) (s s' : Handlers)
    (keep : Bool)
    → IsSound s
    → Room disk s.http_cache
    → Room disk s.https_cache
    → dispatch_protocol config port disk client s ≡ some (keep, s')
    → IsSound s'
dispatch_protocol-IsSound config port disk client s s' keep sound room room' e =
    let fd = client.secure.client_fd in
    let after =
      dispatch_protocol-Holds config port disk client Owns (release-Owns fd)
        (λ t o absent. ssl_new-Owns fd t o absent) s s' keep
        (record {
          http_valid = sound.http_valid;
          https_valid = sound.https_valid;
          kept = sound.owned;
        })
        room room' e in
    record { http_valid = after.http_valid; https_valid = after.https_valid; owned = after.kept }
