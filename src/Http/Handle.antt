-- ===== src/Http/Handle.antt =====
-- `handle_http` of Core/protocols/http.hpp as a whole.
use sok.Base.{
  nat_keys, ◌+◌, ◌<◌, Bool, true, false, ◌||◌, List, [], ◌∷◌, some, ◌≡◌, sym, arith, ◌==◌,
  Bool-cases, Option-cases, inl, inr, subst,
}
use sok.Base.Text.{Bytes, bytes_keys, codes, is_empty}
use sok.FileCache.{FileCache, FileView, size_mod, get_file_size}
use sok.FileCache.Invariant.{IsValid}
use sok.FileCache.Refine.{get-Refines}
use sok.Http.{
  Connection, Handled, finish, dispatch_method, handle_request, handle_http, untouched, bad_request,
  is_waiting, file_response, echo_response, other_response,
}
use sok.Http.Headers.{
  AreFields, parse_headers, insert_all, parse_headers-print_headers, parse_headers_total,
}
use sok.Http.Parse.{
  IsRequestLine, print_request, read_request_line-print_request, IsRequestLine-well_formed,
  has_blank_line-print_request, print_request-nonempty, join, read_chunks_partial,
}
use sok.Http.Request.{
  RequestLine, no_data, read_request, read_chunks, read_request_line, is_malformed, has_blank_line,
  wants_keep_alive, file_path_of, body_of,
}
use sok.Http.Send.{Response, send_http_response}

module _ (root_dir : Bytes) (disk : Bytes → FileView) (conn : Connection) (cache : FileCache) where
  -- A request that has come in part, in whatever pieces, is dropped: what was read is in no state
  -- that the call leaves, nothing is sent, and the connection waits for more.
  pub handle_http_partial :
      conn.incoming.ending ≡ no_data
      → has_blank_line (join conn.incoming.chunks) ≡ false
      → handle_http root_dir disk conn cache
        ≡ some (record { keep_alive = true; cache = cache; socket = untouched conn })
  unfolding handle_http read_request is_waiting
  handle_http_partial waiting partial =
      ground (arith, read_chunks_partial [] conn.incoming.chunks conn.incoming.ending partial)

  -- A well formed request that comes in one piece is answered by its method, path, version and
  -- headers as they were written.
  pub handle_http-print_request :
      (l : RequestLine) (fields : List (Bytes × Bytes)) (body : Bytes) (later : List Bytes)
      → IsRequestLine l
      → AreFields fields
      → conn.incoming.chunks ≡ print_request l fields body ∷ later
      → handle_http root_dir disk conn cache
        ≡ dispatch_method root_dir disk conn cache
            (print_request l fields body)
            l
            (wants_keep_alive (insert_all fields []))
  unfolding handle_http handle_request read_request read_chunks is_waiting
  handle_http-print_request l fields body later w f e = ground (
    arith,
    has_blank_line-print_request l fields body,
    print_request-nonempty l fields body w,
    read_request_line-print_request l fields body w,
    IsRequestLine-well_formed l w,
    parse_headers-print_headers fields body f,
  )

finish-cache :
    (conn : Connection) (cache : FileCache) (keep : Bool) (r : Response) (h : Handled)
    → finish conn cache keep r ≡ some h
    → h.cache ≡ cache
unfolding finish
finish-cache conn cache keep r h e =
    elim (Option-cases (send_http_response r conn.opened conn.answers)) [
      | inl stuck ↦ ground arith
      | inr (s, sent) ↦ ground arith
    ]

module _ (root_dir : Bytes) (disk : Bytes → FileView) (conn : Connection) (cache : FileCache)
    (valid : IsValid cache)
    (room : (p : Bytes) → cache.max_size + get_file_size (disk p).sized < size_mod) where
  finish-IsValid :
      (c : FileCache) (keep : Bool) (r : Response) (h : Handled)
      → IsValid c
      → finish conn c keep r ≡ some h
      → IsValid h.cache
  finish-IsValid c keep r h v e = subst IsValid (sym (finish-cache conn c keep r h e)) v

  dispatch_method-IsValid :
      (request : Bytes) (l : RequestLine) (keep : Bool) (h : Handled)
      → dispatch_method root_dir disk conn cache request l keep ≡ some h
      → IsValid h.cache
  unfolding dispatch_method
  dispatch_method-IsValid request l keep h e =
      elim (Bool-cases (l.method == codes "GET" || l.method == codes "HEAD")) [
        | inl file ↦
            let path = file_path_of root_dir l.path in
            let (c', r, run, v, _, _) = get-Refines path (disk path) cache valid (room path) in
            finish-IsValid c' keep (file_response l keep path r) h v (ground (arith, run))
        | inr other ↦ elim (Bool-cases (l.method == codes "POST")) [
          | inl post ↦
              finish-IsValid cache keep (echo_response l keep (body_of request)) h valid
                (ground arith)
          | inr none' ↦ finish-IsValid cache keep (other_response l keep) h valid (ground arith)
        ]
      ]

  -- Whatever a request holds and however the peer and the kernel answer, a call that returns leaves
  -- a valid cache, if every file's size and the budget together fit in `size_t`.
  pub handle_http-IsValid :
      (h : Handled) → handle_http root_dir disk conn cache ≡ some h → IsValid h.cache
  unfolding handle_http handle_request
  handle_http-IsValid h e =
      let request = (read_request conn.incoming).0 in
      let (l, lines) = read_request_line request in
      elim (Bool-cases (is_waiting (read_request conn.incoming).1)) [
        | inl waiting ↦ subst IsValid (ground arith) valid
        | inr go ↦ elim (Bool-cases (is_empty request || is_malformed l)) [
          | inl bad ↦ finish-IsValid cache false bad_request h valid (ground arith)
          | inr fine ↦ elim (Option-cases (parse_headers lines)) [
            | inl endless ↦ absurd (ground (arith, parse_headers_total lines))
            | inr (headers, parsed) ↦
                dispatch_method-IsValid request l (wants_keep_alive headers) h (ground arith)
          ]
        ]
      ]
