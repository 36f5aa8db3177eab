-- ===== src/Https/Delivery.antt =====
-- What the peer gets of a response of Core/protocols/https.hpp.
use sok.Base.{
  nat_keys, ℕ, suc, ◌≤◌, false, List, [], ◌∷◌, ◌++◌, Option, some, ◌≡◌, refl, sym, arith, ap, ◌∙◌,
  length, take, drop, take-append-drop, length-drop, append_assoc, append-nil, same_refl,
}
use sok.Base.Text.{Bytes, bytes_keys, codes, is_empty}
use sok.Http.Send.{Response, head}
use sok.Https.Send.{
  SslAnswer, wrote, want, pipe, fatal, Stream, safe_ssl_write, write_mapped, send_body,
  send_https_response,
}

-- No answer is an error.
abbrev pub AllWrote : List SslAnswer → Type 0
AllWrote [] = Unit {0}
AllWrote (wrote n ∷ answers) = AllWrote answers
AllWrote (want ∷ answers) = ⊥
AllWrote (pipe ∷ answers) = ⊥
AllWrote (fatal ∷ answers) = ⊥

abbrev pub Sends : Option Stream → Bytes → Type 0
Sends r bytes = (s : Stream) × (r ≡ some s) × (s.sent ≡ bytes) × (s.broken_pipe ≡ false)

write_mapped-Sends :
    (answers : List SslAnswer) (file sent : Bytes)
    → AllWrote answers
    → length file ≤ length answers
    → Sends (write_mapped answers file sent) (sent ++ file)
unfolding write_mapped
write_mapped-Sends [] [] sent w h = (_, refl, sym (append-nil sent), refl)
write_mapped-Sends [] (b ∷ bs) sent w h = absurd (omega arith)
write_mapped-Sends (a ∷ answers) [] sent w h = (_, refl, sym (append-nil sent), refl)
write_mapped-Sends (wrote n ∷ answers) (b ∷ bs) sent w h =
    let (s, ran, all, whole) =
      write_mapped-Sends answers (drop n bs) (sent ++ take (suc n) (b ∷ bs)) w
        (omega (arith, length-drop n bs)) in
    (
      s,
      ran,
      all
          ∙ append_assoc sent (take (suc n) (b ∷ bs)) (drop n bs)
          ∙ ap (λ (t : Bytes). sent ++ b ∷ t) (take-append-drop n bs),
      whole,
    )
write_mapped-Sends (want ∷ answers) (b ∷ bs) sent w h = absurd w
write_mapped-Sends (pipe ∷ answers) (b ∷ bs) sent w h = absurd w
write_mapped-Sends (fatal ∷ answers) (b ∷ bs) sent w h = absurd w

-- A GET response from a file: after what the first write took of the head the peer gets the whole
-- file as it is now, whatever length the head declares, if no later write fails.
pub send_https_response-file :
    (r : Response) (file : Bytes) (n : ℕ) (answers : List SslAnswer)
    → r.method ≡ codes "GET"
    → is_empty r.file_path ≡ false
    → is_empty r.body ≡ false
    → AllWrote answers
    → length file ≤ length answers
    → Sends (send_https_response r (some file) (wrote n ∷ answers)) (take (suc n) (head r) ++ file)
unfolding send_https_response safe_ssl_write
send_https_response-file r file n answers get path body w h =
    let first : Stream = record {
      answers = answers;
      sent = take (suc n) (head r);
      broken_pipe = false;
    } in
    let there : send_body r (some file) first ≡ write_mapped answers file (take (suc n) (head r)) =
      unfold send_body in ground (arith, get, same_refl (codes "GET")) in
    rw there (write_mapped-Sends answers file (take (suc n) (head r)) w h)
