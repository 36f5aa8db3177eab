-- ===== src/Https/Handle.antt =====
-- `handle_https` of Core/protocols/https.hpp with the cleanup of its caller.
use sok.Base.{
  nat_keys, ◌<◌, ◌+◌, Bool, false, not, ◌&&◌, ◌||◌, Option, none, some, if◌then◌else◌, ◌==◌, ◌≡◌,
  arith, Bool-cases, Option-cases, inl, inr, subst,
}
use sok.Base.Map.{lookup}
use sok.Base.Text.{Bytes, bytes_keys, codes, is_empty}
use sok.FileCache.{FileCache, FileView, get_file_size, size_mod}
use sok.FileCache.Invariant.{IsValid}
use sok.FileCache.Refine.{get-Refines}
use sok.Http.{bad_request, file_response, echo_response, other_response}
use sok.Http.Headers.{parse_headers}
use sok.Http.Request.{
  Ending, closed, no_data, error, RequestLine, read_request, read_request_line, is_malformed,
  wants_keep_alive, file_path_of, body_of,
}
use sok.Http.Send.{Response}
use sok.Https.{
  Connection, Handled, Handshake, done, wants, failed, finish, dispatch_method, handle_request,
  handle_read, handle_accept, handle_https, is_handshake, cleanup,
}
use sok.Https.Objects.{Tls, ssl_new, release}
use sok.Https.Owns.{Owns, ssl_new-Owns, release-Owns, release-absent}
use sok.Https.Send.{send_https_response}

-- What holds of the objects before a call holds after it, if it survives that the connection's own
-- object is made and freed.
module _ (conn : Connection) (P : Tls → Type 0)
    (release-P : (t : Tls) → P t → P (release conn.client_fd t)) where
  -- After a call that returns it holds of the map, and the cache is valid.
  abbrev Keeps : Option Handled → Type 0
  Keeps r = (h : Handled) → r ≡ some h → P h.tls × IsValid h.cache

  finish-Keeps :
      (cache : FileCache) (tls : Tls) (keep : Bool) (r : Response)
      → P tls
      → IsValid cache
      → Keeps (finish conn cache tls keep r)
  unfolding finish
  finish-Keeps cache tls keep r o v h e =
      elim (Option-cases (send_https_response r conn.mapped conn.answers)) [
        | inl stuck ↦ absurd (ground arith)
        | inr (s, sent) ↦ elim (Bool-cases (not s.broken_pipe && keep)) [
          | inl kept ↦
              (subst P {x = tls} (ground arith) o, subst IsValid {x = cache} (ground arith) v)
          | inr gone ↦ (
            subst P {x = release conn.client_fd tls} (ground arith) (release-P tls o),
            subst IsValid {x = cache} (ground arith) v,
          )
        ]
      ]

  module _ (root_dir : Bytes) (disk : Bytes → FileView) (cache : FileCache) (v : IsValid cache)
      (room : (p : Bytes) → cache.max_size + get_file_size (disk p).sized < size_mod) where
    dispatch_method-Keeps :
        (tls : Tls) (request : Bytes) (l : RequestLine) (keep : Bool)
        → P tls
        → Keeps (dispatch_method root_dir disk conn cache tls request l keep)
    unfolding dispatch_method
    dispatch_method-Keeps tls request l keep o h e =
        let path = file_path_of root_dir l.path in
        elim (Bool-cases (l.method == codes "GET" || l.method == codes "HEAD")) [
          | inl file ↦
              let (c', r, run, v', _, _) = get-Refines path (disk path) cache v (room path) in
              finish-Keeps c' tls keep (file_response l keep path r) o v' h (ground (arith, run))
          | inr other ↦ elim (Bool-cases (l.method == codes "POST")) [
            | inl post ↦
                finish-Keeps cache tls keep (echo_response l keep (body_of request)) o v h
                  (ground arith)
            | inr none' ↦ finish-Keeps cache tls keep (other_response l keep) o v h (ground arith)
          ]
        ]

    handle_request-Keeps :
        (tls : Tls) (request : Bytes)
        → P tls
        → Keeps (handle_request root_dir disk conn cache tls request)
    unfolding handle_request
    handle_request-Keeps tls request o h e =
        let (l, lines) = read_request_line request in
        elim (Option-cases (parse_headers lines)) [
          | inl stuck ↦ absurd (ground arith)
          | inr (headers, parsed) ↦ elim (Bool-cases (is_malformed l)) [
            | inl bad ↦
                finish-Keeps cache tls false (record bad_request { method = l.method }) o v h
                  (ground arith)
            | inr fine ↦
                dispatch_method-Keeps tls request l (wants_keep_alive headers) o h (ground arith)
          ]
        ]

    handle_read-Keeps :
        (tls : Tls) (request : Bytes) (ending : Option Ending)
        → P tls
        → Keeps (handle_read root_dir disk conn cache tls request ending)
    unfolding handle_read
    handle_read-Keeps tls request (some closed) o h e = (
      subst P {x = release conn.client_fd tls} (ground arith) (release-P tls o),
      subst IsValid {x = cache} (ground arith) v,
    )
    handle_read-Keeps tls request (some no_data) o h e =
        (subst P {x = tls} (ground arith) o, subst IsValid {x = cache} (ground arith) v)
    handle_read-Keeps tls request (some error) o h e = elim (Bool-cases (is_empty request)) [
      | inl nothing ↦ finish-Keeps cache tls false bad_request o v h (ground arith)
      | inr received ↦ handle_request-Keeps tls request o h (ground arith)
    ]
    handle_read-Keeps tls request none o h e = elim (Bool-cases (is_empty request)) [
      | inl nothing ↦ finish-Keeps cache tls false bad_request o v h (ground arith)
      | inr received ↦ handle_request-Keeps tls request o h (ground arith)
    ]

    handle_accept-Keeps :
        (tls : Tls) (handshake : Handshake)
        → P tls
        → Keeps (handle_accept root_dir disk conn cache tls handshake)
    unfolding handle_accept
    handle_accept-Keeps tls wants o h e =
        (subst P {x = tls} (ground arith) o, subst IsValid {x = cache} (ground arith) v)
    handle_accept-Keeps tls failed o h e =
        (subst P {x = tls} (ground arith) o, subst IsValid {x = cache} (ground arith) v)
    handle_accept-Keeps tls done o h e =
        let (request, ending) = read_request conn.incoming in
        handle_read-Keeps tls request ending o h e

    pub handle_https-Keeps :
        (tls : Tls)
        → (lookup conn.client_fd tls.ssl_map ≡ none → P (ssl_new conn.client_fd tls))
        → P tls
        → Keeps (handle_https root_dir disk conn cache tls)
    unfolding handle_https
    handle_https-Keeps tls ssl_new-P o h e =
        elim (Option-cases (lookup conn.client_fd tls.ssl_map)) [
          | inl new ↦ elim (Bool-cases (is_handshake conn.peeked)) [
            | inl tls_start ↦
                handle_accept-Keeps (ssl_new conn.client_fd tls) conn.handshake (ssl_new-P new) h
                  (ground arith)
            | inr other ↦
                (subst P {x = tls} (ground arith) o, subst IsValid {x = cache} (ground arith) v)
          ]
          | inr (ssl, known) ↦ handle_accept-Keeps tls conn.handshake o h (ground arith)
        ]

-- On every path of a call, and after the worker's cleanup behind it, each object of OpenSSL belongs
-- to exactly one entry of the map and none is freed twice or leaked; after the cleanup of a
-- connection that is not kept its descriptor has no object. The cache stays valid. (Every file's
-- size and the budget together fit in `size_t`.)
pub handle_https-Owns :
    (root_dir : Bytes) (disk : Bytes → FileView) (conn : Connection) (cache : FileCache) (tls : Tls)
    (h : Handled)
    → IsValid cache
    → ((p : Bytes) → cache.max_size + get_file_size (disk p).sized < size_mod)
    → Owns tls
    → handle_https root_dir disk conn cache tls ≡ some h
    → Owns h.tls
      × Owns (cleanup conn h)
      × (lookup conn.client_fd (cleanup conn h).ssl_map
          ≡ (if h.keep_alive then lookup conn.client_fd h.tls.ssl_map else none))
      × IsValid h.cache
unfolding cleanup
handle_https-Owns root_dir disk conn cache tls h v room o e =
    let (owned, valid) =
      handle_https-Keeps conn Owns (release-Owns conn.client_fd) root_dir disk cache v room tls
        (ssl_new-Owns conn.client_fd tls o) o h e in
    elim (Bool-cases h.keep_alive) [
      | inl kept ↦ (owned, subst Owns {x = h.tls} (ground arith) owned, ground arith, valid)
      | inr gone ↦ (
        owned,
        subst Owns {x = release conn.client_fd h.tls} (ground arith)
            (release-Owns conn.client_fd h.tls owned),
        ground (arith, release-absent conn.client_fd h.tls),
        valid,
      )
    ]
