-- ===== src/Http/Send.antt =====
-- `safe_write` and `send_http_response` of Core/protocols/http.hpp.
-- What the kernel answers to the calls on the socket, in their order, is a list; where it is used
-- up the function has not returned yet, and the result is `none`.
pub mod Loops
pub mod Delivery
pub mod Head
use sok.Base.{
  nat_keys, ℕ, zero, suc, ◌+◌, ◌-◌, ◌≤◌, ◌<◌, min, Bool, true, false, not, ◌&&◌, List, [], ◌∷◌,
  ◌++◌, Option, none, some, ◌≡◌, refl, arith, ap, if◌then◌else◌, ◌==◌, ◌>>=◌, length, take, drop,
}
use sok.Base.Text.{Bytes, bytes_keys, codes, is_empty}
use sok.Http.Decimal.{print_ℕ}
use sok.Http.Scan.{newline, return}

-- The result of `write` or `sendfile`: a count, or -1 with EAGAIN or EWOULDBLOCK, with EPIPE, or
-- with another error.
pub data Answer : Type 0 where
  wrote : ℕ → Answer
  again pipe failed : Answer

-- The answers to come, the bytes that the kernel has taken, and the flag of the caller.
pub record Socket : Type 0 where
  pub answers : List Answer
  pub sent : Bytes
  pub broken_pipe : Bool

-- The arguments of `send_http_response`.
pub record Response : Type 0 where
  pub version : Bytes
  pub status_code : ℕ
  pub status_text : Bytes
  pub mime : Bytes
  pub body : Bytes
  pub keep_alive : Bool
  pub method : Bytes
  pub file_path : Bytes

-- One `write`; of a count beyond the buffer all is taken.
unfoldable pub safe_write : Bytes → Bytes → List Answer → Option (Socket × Bool)
safe_write buf sent [] = none
safe_write buf sent (wrote n ∷ answers) =
    some (record { answers = answers; sent = sent ++ take n buf; broken_pipe = false }, true)
safe_write buf sent (again ∷ answers) =
    some (record { answers = answers; sent = sent; broken_pipe = false }, true)
safe_write buf sent (pipe ∷ answers) =
    some (record { answers = answers; sent = sent; broken_pipe = false }, false)
safe_write buf sent (failed ∷ answers) =
    some (record { answers = answers; sent = sent; broken_pipe = false }, false)

abbrev pub line_end : Bytes
line_end = return ∷ newline ∷ []

unfoldable pub content_type : Bytes → Bytes
content_type mime = if is_empty mime then [] else codes "Content-Type: " ++ (mime ++ line_end)

unfoldable pub connection : Bool → Bytes
connection keep_alive = if keep_alive then codes "Connection: keep-alive" ++ line_end else []

-- What the stream `oss` holds.
unfoldable pub head : Response → Bytes
unfolding content_type connection
head r =
    r.version
    ++ (32
        ∷ (print_ℕ r.status_code
            ++ (32
                ∷ (r.status_text
                    ++ (line_end
                        ++ (content_type r.mime
                            ++ (codes "Server: SOK"
                                ++ (line_end
                                    ++ (codes "Content-Length: "
                                        ++ (print_ℕ (length r.body)
                                            ++ (line_end
                                                ++ (connection r.keep_alive ++ line_end))))))))))))

-- `while (total < body.size())` over the bytes that are left.
unfoldable pub write_all : List Answer → Bytes → Bytes → Option Socket
write_all answers [] sent = some (record { answers = answers; sent = sent; broken_pipe = false })
write_all [] (b ∷ bs) sent = none
write_all (wrote n ∷ answers) (b ∷ bs) sent =
    write_all answers (drop n (b ∷ bs)) (sent ++ take n (b ∷ bs))
write_all (again ∷ answers) (b ∷ bs) sent =
    some (record { answers = answers; sent = sent; broken_pipe = false })
write_all (pipe ∷ answers) (b ∷ bs) sent =
    some (record { answers = answers; sent = sent; broken_pipe = true })
write_all (failed ∷ answers) (b ∷ bs) sent =
    some (record { answers = answers; sent = sent; broken_pipe = false })

-- `while (remain > 0)` over what is left of the file: `sendfile` moves no more than the file has.
-- On every error the loop is left, and the flag stays.
unfoldable pub send_file : List Answer → ℕ → Bytes → Bytes → Option Socket
send_file answers zero left sent =
    some (record { answers = answers; sent = sent; broken_pipe = false })
send_file [] (suc remain) left sent = none
send_file (wrote n ∷ answers) (suc remain) left sent =
    let moved = take (min n (suc remain)) left in
    send_file answers (suc remain - length moved) (drop (length moved) left) (sent ++ moved)
send_file (again ∷ answers) (suc remain) left sent =
    some (record { answers = answers; sent = sent; broken_pipe = false })
send_file (pipe ∷ answers) (suc remain) left sent =
    some (record { answers = answers; sent = sent; broken_pipe = false })
send_file (failed ∷ answers) (suc remain) left sent =
    some (record { answers = answers; sent = sent; broken_pipe = false })

-- What follows the head. `opened` is what `open(file_path)` finds.
unfoldable pub send_body : Response → Option Bytes → Socket → Option Socket
send_body r opened s =
    if r.method == codes "GET" && (not (is_empty r.body) && not (is_empty r.file_path))
    then elim opened [ none ↦ some s | some file ↦ send_file s.answers (length r.body) file s.sent ]
    else if r.method == codes "GET" && not (is_empty r.body)
    then write_all s.answers r.body s.sent
    else some s

unfoldable pub send_http_response : Response → Option Bytes → List Answer → Option Socket
send_http_response r opened answers = safe_write (head r) [] answers >>= λ (s, ok).
    if ok then send_body r opened s else some (record s { broken_pipe = true })
