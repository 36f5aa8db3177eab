-- ===== src/Http/Send/Delivery.antt =====
-- What the peer gets of a response of Core/protocols/http.hpp.
use sok.Base.{
  nat_keys, ℕ, ◌≤◌, ◌<◌, true, false, not, List, [], ◌∷◌, ◌++◌, Option, none, some, ◌≡◌, ◌≢◌, refl,
  sym, arith, ap, ◌∙◌, if◌then◌else◌, ◌==◌, length, take, append-nil, same_refl, Bool-cases, inl,
  inr,
}
use sok.Base.Text.{Bytes, bytes_keys, bytes_same_iff, codes, is_empty}
use sok.Http.Send.{
  Answer, wrote, again, pipe, failed, Socket, Response, safe_write, write_all, send_file, send_body,
  send_http_response, head,
}
use sok.Http.Send.Loops.{
  Progress, AllWrote, accepted, is_success, Sends, write_all-Sends, send_file-Sends,
  send_file_short,
}

safe_write-success :
    (buf : Bytes) (a : Answer) (answers : List Answer)
    → is_success a ≡ true
    → safe_write buf [] (a ∷ answers)
      ≡ some (record { answers = answers; sent = take (accepted a) buf; broken_pipe = false }, true)
unfolding safe_write
safe_write-success buf (wrote n) answers h = refl
safe_write-success buf again answers h = refl
safe_write-success buf pipe answers h = cc
safe_write-success buf failed answers h = cc

-- The state after the head.
abbrev after_head : Response → Answer → List Answer → Socket
after_head r a answers = record {
  answers = answers;
  sent = take (accepted a) (head r);
  broken_pipe = false;
}

send-after_head :
    (r : Response) (opened : Option Bytes) (a : Answer) (answers : List Answer)
    → is_success a ≡ true
    → send_http_response r opened (a ∷ answers) ≡ send_body r opened (after_head r a answers)
unfolding send_http_response
send-after_head r opened a answers h =
    rw (safe_write-success (head r) a answers h, send_http_response)

is_get : (r : Response) → r.method ≡ codes "GET" → (r.method == codes "GET") ≡ true
is_get r e = ground (arith, same_refl (codes "GET"))

is_empty-nil : (s : Bytes) → is_empty s ≡ true → s ≡ []
is_empty-nil [] h = refl
is_empty-nil (c ∷ s) h = cc

is_empty-length : (n : ℕ) (s : Bytes) → n < length s → is_empty s ≡ false
is_empty-length n [] h = elim h [ ]
is_empty-length n (c ∷ s) h = refl

body-Sends :
    (r : Response) (opened : Option Bytes) (s : Socket)
    → r.method ≡ codes "GET"
    → r.file_path ≡ []
    → s.broken_pipe ≡ false
    → Progress s.answers
    → length r.body ≤ length s.answers
    → Sends (send_body r opened s) (s.sent ++ r.body)
unfolding send_body
body-Sends r opened s get plain whole p room = elim (Bool-cases (is_empty r.body)) [
  | inl none' ↦
      let there : send_body r opened s ≡ some s = ground (arith, is_get r get) in
      (
        s,
        there,
        sym (append-nil s.sent) ∙ ap (◌++◌ s.sent) (sym (is_empty-nil r.body none')),
        whole,
      )
  | inr some' ↦
      let there : send_body r opened s ≡ write_all s.answers r.body s.sent =
        ground (arith, is_get r get, ap (is_empty {A = ℕ}) plain) in
      rw there (write_all-Sends s.answers r.body s.sent p room)
]

file-Sends :
    (r : Response) (file : Bytes) (s : Socket)
    → r.method ≡ codes "GET"
    → is_empty r.file_path ≡ false
    → is_empty r.body ≡ false
    → send_body r (some file) s ≡ send_file s.answers (length r.body) file s.sent
unfolding send_body
file-Sends r file s get path body = ground (arith, is_get r get)

-- A GET response that comes from no file: the peer gets what the first write took of the head, and
-- then the whole body, if the writes of the body each take something and are as many as its bytes.
-- The head is complete only if the first write took all of it: a short write and EAGAIN count as
-- success, and what they left is not sent again.
pub send_http_response-Sends :
    (r : Response) (opened : Option Bytes) (a : Answer) (answers : List Answer)
    → r.method ≡ codes "GET"
    → r.file_path ≡ []
    → is_success a ≡ true
    → Progress answers
    → length r.body ≤ length answers
    → Sends (send_http_response r opened (a ∷ answers)) (take (accepted a) (head r) ++ r.body)
send_http_response-Sends r opened a answers get plain ok p room =
    rw (send-after_head r opened a answers ok)
      (body-Sends r opened (after_head r a answers) get plain refl p room)

-- A GET response from a file that has at least the declared bytes: after the head the peer gets as
-- many bytes of the file as the head declares.
pub send_http_response-file :
    (r : Response) (file : Bytes) (a : Answer) (answers : List Answer)
    → r.method ≡ codes "GET"
    → is_empty r.file_path ≡ false
    → is_empty r.body ≡ false
    → is_success a ≡ true
    → Progress answers
    → length r.body ≤ length answers
    → length r.body ≤ length file
    → Sends
        (send_http_response r (some file) (a ∷ answers))
        (take (accepted a) (head r) ++ take (length r.body) file)
send_http_response-file r file a answers get path body ok p room enough =
    rw (send-after_head r (some file) a answers ok, file-Sends r file _ get path body)
      (send_file-Sends answers (length r.body) file _ p room enough)

-- If the file has become shorter than the declared length, the loop of `sendfile` never ends while
-- the socket works: however many calls are answered without error, the function has not returned.
pub send_http_response_stuck :
    (r : Response) (file : Bytes) (a : Answer) (answers : List Answer)
    → r.method ≡ codes "GET"
    → is_empty r.file_path ≡ false
    → is_success a ≡ true
    → AllWrote answers
    → length file < length r.body
    → send_http_response r (some file) (a ∷ answers) ≡ none
send_http_response_stuck r file a answers get path ok w short =
    rw
      (
        send-after_head r (some file) a answers ok,
        file-Sends r file _ get path (is_empty-length _ r.body short),
      )
      (send_file_short answers (length r.body) file _ w short)

not_get-body :
    (r : Response) (opened : Option Bytes) (s : Socket)
    → r.method ≢ codes "GET"
    → send_body r opened s ≡ some s
unfolding send_body
not_get-body r opened s other = ground (arith, bytes_same_iff r.method (codes "GET"))

-- To any other method than GET only the head is sent, whatever the body, also where the head
-- declares its length: what the first write took of the head, and the call returns.
pub send_http_response-head :
    (r : Response) (opened : Option Bytes) (a : Answer) (answers : List Answer)
    → r.method ≢ codes "GET"
    → (s : Socket) × (send_http_response r opened (a ∷ answers) ≡ some s)
      × (s.sent ≡ (if is_success a then take (accepted a) (head r) else []))
      × (s.broken_pipe ≡ not (is_success a))
unfolding send_http_response safe_write
send_http_response-head r opened (wrote n) answers other = (
  after_head r (wrote n) answers,
  not_get-body r opened (after_head r (wrote n) answers) other,
  refl,
  refl,
)
send_http_response-head r opened again answers other = (
  after_head r again answers,
  not_get-body r opened (after_head r again answers) other,
  refl,
  refl,
)
send_http_response-head r opened pipe answers other = (_, refl, refl, refl)
send_http_response-head r opened failed answers other = (_, refl, refl, refl)
