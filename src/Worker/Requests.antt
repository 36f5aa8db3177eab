-- ===== src/Worker/Requests.antt =====
-- A GET request that comes to a worker in one piece: Core/utils/ProtocolDispatcher.hpp,
-- Core/protocols/http.hpp and Core/mstd/fileCache.hpp together.
use sok.Base.{
  nat_keys, ◌+◌, ◌≤◌, ◌<◌, true, false, List, [], ◌∷◌, ◌++◌, none, some, ◌≡◌, refl, sym, ap, ◌∙◌,
  arith, Bool, same_refl, ◌==◌, take, take_all, length, inl, subst,
}
use sok.Base.Int.{ℤ}
use sok.Base.Map.{lookup}
use sok.Base.Text.{Bytes, bytes_keys, codes, is_empty}
use sok.Dispatcher.{Client, Handlers, http, protocol, run_http, dispatch_protocol}
use sok.Dispatcher.Laws.{protocol-print_request}
use sok.FileCache
use sok.FileCache.{
  CachedFile, FileCache, FileView, Served, add_size, load_file, get_file_size, size_mod,
}
use sok.FileCache.Invariant.{IsValid, files, view}
use sok.FileCache.Refine.{get-Refines}
use sok.FileCache.Serve.{load_file-content}
use sok.FileCache.Spec.{spec_get, spec_load}
use sok.Http.{Handled, handle_http, dispatch_method, finish, file_response}
use sok.Http.Handle.{handle_http-print_request}
use sok.Http.Headers.{AreFields, insert_all}
use sok.Http.Parse.{IsRequestLine, print_request}
use sok.Http.Request.{RequestLine, wants_keep_alive, file_path_of}
use sok.Http.Send.{Answer, Socket, Response, head, send_http_response}
use sok.Http.Send.Delivery.{send_http_response-file}
use sok.Http.Send.Loops.{Progress, Sends, accepted, is_success}
use sok.Site.{SiteInfo, site_info}
use sok.Yaml.{Fields, ok}

-- The client has sent this request, well formed, in one piece, and its first bytes were peeked.
pub record IsGet (l : RequestLine) (fields : List (Bytes × Bytes)) (client : Client) : Type 0 where
  pub method : l.method ≡ codes "GET"
  pub line : IsRequestLine l
  pub are_fields : AreFields fields
  pub body : Bytes
  pub later : List Bytes
  pub peeked : client.peeked ≡ take 16 (print_request l fields body)
  pub chunks : client.plain.incoming.chunks ≡ print_request l fields body ∷ later

-- The file is there and can be read whole, the cache does not hold it, and every write to the
-- client takes something.
pub record IsOnDisk (path : Bytes) (disk : Bytes → FileView) (client : Client) (cache : FileCache)
    : Type 0 where
  pub unheld : lookup path (files cache) ≡ none
  pub room : cache.max_size + get_file_size (disk path).sized < size_mod
  pub file : CachedFile
  pub loads : load_file path (disk path) ≡ some file
  pub whole : length (disk path).readable ≡ get_file_size (disk path).sized
  pub opened : client.plain.opened ≡ some (disk path).readable
  pub first : Answer
  pub answers : List Answer
  pub answered : client.plain.answers ≡ first ∷ answers
  pub success : is_success first ≡ true
  pub progress : Progress answers
  pub enough : length (disk path).readable ≤ length answers

pub dispatch_protocol-get :
    (config : Fields) (port : ℤ) (disk : Bytes → FileView) (client : Client) (s : Handlers)
    (site : SiteInfo) (l : RequestLine) (fields : List (Bytes × Bytes))
    → site_info port config ≡ ok site
    → IsGet l fields client
    → dispatch_protocol config port disk client s ≡ run_http site.root_dir disk client s
unfolding dispatch_protocol
dispatch_protocol-get config port disk client s site l fields found get =
    let here : protocol client.peeked ≡ http =
      ap protocol get.peeked ∙ protocol-print_request l fields get.body (inl get.method) in
    rw (here, dispatch_protocol, found)

file_path_of_filled :
    (root_dir path : Bytes) → is_empty path ≡ false → is_empty (file_path_of root_dir path) ≡ false
unfolding file_path_of
file_path_of_filled [] [] h = absurd (ground arith)
file_path_of_filled [] (c ∷ path) h = ground arith
file_path_of_filled (r ∷ root_dir) path h = ground arith

get_unheld :
    (path : Bytes) (v : FileView) (cache : FileCache) (file : CachedFile)
    → IsValid cache
    → cache.max_size + get_file_size v.sized < size_mod
    → lookup path (files cache) ≡ none
    → load_file path v ≡ some file
    → (c' : FileCache) × (FileCache.get path v cache
        ≡ some (c', some (file.content, file.mime_type)))
      × IsValid c'
      × (view c' ≡ (spec_get path v (view cache)).0)
unfolding spec_get spec_load
get_unheld path v cache file valid room unheld loads =
    let (c', r, run, valid', seen, served) = get-Refines path v cache valid room in
    let missed = record (view cache) { misses = add_size cache.cache_misses 1 } in
    let load : (spec_load path v missed).1 ≡ some (file.content, file.mime_type) =
      rw (loads, spec_load) in
    let spec : spec_get path v (view cache) ≡ spec_load path v missed = rw (unheld, spec_get) in
    (c', run ∙ ap (λ (x : Served). some (c', x)) (served ∙ ap (λ x. x.1) spec ∙ load), valid', seen)

filled_of : (s : Bytes) → 0 < length s → is_empty s ≡ false
filled_of [] h = absurd (omega arith)
filled_of (c ∷ s) h = refl

-- What a client gets of a file.
abbrev pub answer_of : RequestLine → List (Bytes × Bytes) → Bytes → CachedFile → Response
answer_of l fields path file =
    file_response l (wants_keep_alive (insert_all fields [])) path
      (some (file.content, file.mime_type))

-- The call has returned; the client has got what the first write took of the head, and then the
-- file as it is on disk; the cache is valid, and has read the file and counted a miss.
pub record IsServed (path : Bytes) (l : RequestLine) (fields : List (Bytes × Bytes))
    (disk : Bytes → FileView) (cache : FileCache) (first : Answer) (file : CachedFile) (h : Handled)
    : Type 0 where
  pub sent :
      h.socket.sent
      ≡ take (accepted first) (head (answer_of l fields path file)) ++ (disk path).readable
  pub keeps : h.keep_alive ≡ wants_keep_alive (insert_all fields [])
  pub valid : IsValid h.cache
  pub seen : view h.cache ≡ (spec_get path (disk path) (view cache)).0

answer-Sends :
    (path : Bytes) (l : RequestLine) (fields : List (Bytes × Bytes)) (file : CachedFile)
    (first : Answer) (answers : List Answer)
    → l.method ≡ codes "GET"
    → is_empty path ≡ false
    → is_empty file.content ≡ false
    → is_success first ≡ true
    → Progress answers
    → length file.content ≤ length answers
    → Sends
        (send_http_response (answer_of l fields path file) (some file.content) (first ∷ answers))
        (take (accepted first) (head (answer_of l fields path file)) ++ file.content)
unfolding file_response
answer-Sends path l fields file first answers get filled some_bytes success p enough =
    let r = answer_of l fields path file in
    subst
      (λ (bytes : Bytes).
        Sends (send_http_response r (some file.content) (first ∷ answers))
          (take (accepted first) (head r) ++ bytes))
      (take_all (length file.content) file.content (omega arith))
      (send_http_response-file r file.content first answers get filled some_bytes success p enough
        (omega arith))

dispatch_method-get :
    (root_dir : Bytes) (disk : Bytes → FileView) (client : Client) (cache c' : FileCache)
    (request : Bytes) (l : RequestLine) (keep : Bool) (file : Served)
    → l.method ≡ codes "GET"
    → FileCache.get (file_path_of root_dir l.path) (disk (file_path_of root_dir l.path)) cache
      ≡ some (c', file)
    → dispatch_method root_dir disk client.plain cache request l keep
      ≡ finish client.plain c' keep (file_response l keep (file_path_of root_dir l.path) file)
unfolding dispatch_method
dispatch_method-get root_dir disk client cache c' request l keep file get found =
    let here : (l.method == codes "GET") ≡ true = ground (arith, get, same_refl (codes "GET")) in
    rw (here, dispatch_method, found)

finish_sent :
    (client : Client) (cache : FileCache) (keep : Bool) (r : Response) (s : Socket)
    → send_http_response r client.plain.opened client.plain.answers ≡ some s
    → s.broken_pipe ≡ false
    → finish client.plain cache keep r
      ≡ some (record { keep_alive = keep; cache = cache; socket = s })
unfolding finish
finish_sent client cache keep r s sent whole = rw (sent, finish, whole)

module _ (root_dir : Bytes) (disk : Bytes → FileView) (client : Client) (cache : FileCache)
    (l : RequestLine) (fields : List (Bytes × Bytes)) (valid : IsValid cache)
    (get : IsGet l fields client)
    (there : IsOnDisk (file_path_of root_dir l.path) disk client cache) where
  -- A well formed GET request for a file is answered with the file.
  pub handle_http-file :
      (h : Handled) × (handle_http root_dir disk client.plain cache ≡ some h)
      × IsServed (file_path_of root_dir l.path) l fields disk cache there.first there.file h
  unfolding dispatch_method finish spec_get
  handle_http-file =
      let path = file_path_of root_dir l.path in
      let keep = wants_keep_alive (insert_all fields []) in
      let r = answer_of l fields path there.file in
      let (c', found, valid', seen) =
        get_unheld path (disk path) cache there.file valid there.room there.unheld there.loads in
      let (some_size, size, _, bytes) =
        load_file-content path (disk path) (disk path) there.file there.file there.loads there.loads
          there.whole in
      let ran : handle_http root_dir disk client.plain cache ≡ finish client.plain c' keep r =
        handle_http-print_request root_dir disk client.plain cache l fields get.body get.later
          get.line get.are_fields get.chunks
        ∙ dispatch_method-get root_dir disk client cache c' _ l keep _ get.method found in
      let (s, sends, sent, unbroken) =
        answer-Sends path l fields there.file there.first there.answers get.method
          (file_path_of_filled root_dir l.path get.line.path.1)
          (filled_of there.file.content (omega (arith, some_size, size))) there.success
          there.progress (omega (arith, there.enough, ap length bytes)) in
      (
        record { keep_alive = keep; cache = c'; socket = s },
        ran
            ∙ finish_sent client c' keep r s
                (rw (there.answered, there.opened ∙ ap some (sym bytes)) sends) unbroken,
        record {
          sent = sent ∙ ap (◌++◌ (take (accepted there.first) (head r))) bytes;
          keeps = refl;
          valid = valid';
          seen = seen;
        },
      )
