-- ===== src/Https/Send.antt =====
-- `safe_ssl_write` and `send_https_response` of Core/protocols/https.hpp.
use sok.Base.{
  nat_keys, ℕ, suc, Bool, true, false, not, ◌&&◌, List, [], ◌∷◌, ◌++◌, Option, none, some,
  if◌then◌else◌, ◌==◌, ◌>>=◌, take, drop,
}
use sok.Base.Text.{Bytes, bytes_keys, codes, is_empty}
use sok.Http.Send.{Response, head}

-- `wrote n` is a result of n + 1 bytes. The others are results of 0 or less: WANT_READ or
-- WANT_WRITE, a system error EPIPE, and any other error.
pub data SslAnswer : Type 0 where
  wrote : ℕ → SslAnswer
  want pipe fatal : SslAnswer

pub record Stream : Type 0 where
  pub answers : List SslAnswer
  pub sent : Bytes
  pub broken_pipe : Bool

unfoldable pub safe_ssl_write : Bytes → Bytes → List SslAnswer → Option (Stream × Bool)
safe_ssl_write buf sent [] = none
safe_ssl_write buf sent (wrote n ∷ answers) =
    some (record { answers = answers; sent = sent ++ take (suc n) buf; broken_pipe = false }, true)
safe_ssl_write buf sent (want ∷ answers) =
    some (record { answers = answers; sent = sent; broken_pipe = false }, true)
safe_ssl_write buf sent (pipe ∷ answers) =
    some (record { answers = answers; sent = sent; broken_pipe = false }, false)
safe_ssl_write buf sent (fatal ∷ answers) =
    some (record { answers = answers; sent = sent; broken_pipe = false }, false)

-- A failed write breaks the pipe.
unfoldable pub checked : Stream × Bool → Stream
checked (s, ok) = if ok then s else record s { broken_pipe = true }

-- `while (total < filesize)` over the rest of the mapped file; every error ends the loop, and
-- leaves the flag.
unfoldable pub write_mapped : List SslAnswer → Bytes → Bytes → Option Stream
write_mapped answers [] sent = some (record { answers = answers; sent = sent; broken_pipe = false })
write_mapped [] (b ∷ bs) sent = none
write_mapped (wrote n ∷ answers) (b ∷ bs) sent =
    write_mapped answers (drop n bs) (sent ++ take (suc n) (b ∷ bs))
write_mapped (want ∷ answers) (b ∷ bs) sent =
    some (record { answers = answers; sent = sent; broken_pipe = false })
write_mapped (pipe ∷ answers) (b ∷ bs) sent =
    some (record { answers = answers; sent = sent; broken_pipe = false })
write_mapped (fatal ∷ answers) (b ∷ bs) sent =
    some (record { answers = answers; sent = sent; broken_pipe = false })

unfoldable pub send_body : Response → Option Bytes → Stream → Option Stream
unfolding checked
send_body r mapped s =
    if r.method == codes "GET" && (not (is_empty r.body) && not (is_empty r.file_path))
    then elim mapped [ none ↦ some s | some file ↦ write_mapped s.answers file s.sent ]
    else if r.method == codes "GET" && not (is_empty r.body)
    then (safe_ssl_write r.body s.sent s.answers >>= λ w. some (checked w))
    else some s

unfoldable pub send_https_response : Response → Option Bytes → List SslAnswer → Option Stream
unfolding checked
send_https_response r mapped answers = safe_ssl_write (head r) [] answers >>= λ (s, ok).
    if ok then send_body r mapped s else some (checked (s, ok))
