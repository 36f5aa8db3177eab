-- ===== src/Http/Send/Loops.antt =====
-- The loops of Core/protocols/http.hpp that write a body.
use sok.Base.{
  nat_keys, ℕ, zero, suc, ◌-◌, ◌≤◌, ◌<◌, min, Bool, true, false, List, [], ◌∷◌, ◌++◌, Option, none,
  some, ◌≡◌, refl, sym, arith, ap, ◌∙◌, length, take, drop, take-append-drop, length-take,
  length-drop, append_assoc, append-nil,
}
use sok.Base.Text.{Bytes, bytes_keys}
use sok.Http.Send.{Answer, wrote, again, pipe, failed, Socket, write_all, send_file}

-- Every answer takes at least one byte.
abbrev pub Progress : List Answer → Type 0
Progress [] = Unit {0}
Progress (wrote n ∷ answers) = (0 < n) × Progress answers
Progress (again ∷ answers) = ⊥
Progress (pipe ∷ answers) = ⊥
Progress (failed ∷ answers) = ⊥

-- No answer is an error.
abbrev pub AllWrote : List Answer → Type 0
AllWrote [] = Unit {0}
AllWrote (wrote n ∷ answers) = AllWrote answers
AllWrote (again ∷ answers) = ⊥
AllWrote (pipe ∷ answers) = ⊥
AllWrote (failed ∷ answers) = ⊥

-- How much of a buffer an answer takes.
abbrev pub accepted : Answer → ℕ
accepted (wrote n) = n
accepted again = 0
accepted pipe = 0
accepted failed = 0

-- `safe_write` calls an answer a success.
abbrev pub is_success : Answer → Bool
is_success (wrote n) = true
is_success again = true
is_success pipe = false
is_success failed = false

-- The call has returned, the pipe is whole, and these are the bytes that were taken.
abbrev pub Sends : Option Socket → Bytes → Type 0
Sends r bytes = (s : Socket) × (r ≡ some s) × (s.sent ≡ bytes) × (s.broken_pipe ≡ false)

take-drop-take :
    (k n : ℕ) (s : Bytes)
    → k ≤ n
    → k ≤ length s
    → take k s ++ take (n - length (take k s)) (drop (length (take k s)) s) ≡ take n s
take-drop-take zero n s h l = ground arith
take-drop-take (suc k) zero s h l = absurd (omega arith)
take-drop-take (suc k) (suc n) [] h l = absurd (omega arith)
take-drop-take (suc k) (suc n) (c ∷ s) h l =
    ground (arith, take-drop-take k n s (omega arith) (omega arith))

pub write_all-Sends :
    (answers : List Answer) (body sent : Bytes)
    → Progress answers
    → length body ≤ length answers
    → Sends (write_all answers body sent) (sent ++ body)
unfolding write_all
write_all-Sends [] [] sent p h = (_, refl, sym (append-nil sent), refl)
write_all-Sends [] (b ∷ bs) sent p h = absurd (omega arith)
write_all-Sends (a ∷ answers) [] sent p h = (_, refl, sym (append-nil sent), refl)
write_all-Sends (wrote n ∷ answers) (b ∷ bs) sent p h =
    let rest = drop n (b ∷ bs) in
    let (s, ran, all, whole) =
      write_all-Sends answers rest (sent ++ take n (b ∷ bs)) p.1
        (omega (arith, length-drop n (b ∷ bs), p.0)) in
    (
      s,
      ran,
      all ∙ append_assoc sent (take n (b ∷ bs)) rest ∙ ap (◌++◌ sent) (take-append-drop n (b ∷ bs)),
      whole,
    )
write_all-Sends (again ∷ answers) (b ∷ bs) sent p h = absurd p
write_all-Sends (pipe ∷ answers) (b ∷ bs) sent p h = absurd p
write_all-Sends (failed ∷ answers) (b ∷ bs) sent p h = absurd p

length-moved :
    (n remain : ℕ) (left : Bytes)
    → 0 < n
    → suc remain ≤ length left
    → (length (take (min n (suc remain)) left) ≤ suc remain)
      × (0 < length (take (min n (suc remain)) left))
length-moved n remain left h l =
    let moved = length-take (min n (suc remain)) left in
    (omega (arith, moved), omega (arith, moved))

pub send_file-Sends :
    (answers : List Answer) (remain : ℕ) (left sent : Bytes)
    → Progress answers
    → remain ≤ length answers
    → remain ≤ length left
    → Sends (send_file answers remain left sent) (sent ++ take remain left)
unfolding send_file
send_file-Sends [] zero left sent p h l = (_, refl, sym (append-nil sent), refl)
send_file-Sends (a ∷ answers) zero left sent p h l = (_, refl, sym (append-nil sent), refl)
send_file-Sends [] (suc remain) left sent p h l = absurd (omega arith)
send_file-Sends (wrote n ∷ answers) (suc remain) left sent p h l =
    let moved = take (min n (suc remain)) left in
    let (within, some') = length-moved n remain left p.0 l in
    let (s, ran, all, whole) =
      send_file-Sends answers (suc remain - length moved) (drop (length moved) left) (sent ++ moved)
        p.1 (omega arith) (omega (arith, length-drop (length moved) left)) in
    (
      s,
      ran,
      all
          ∙ append_assoc sent moved _
          ∙ ap (◌++◌ sent)
              (take-drop-take (min n (suc remain)) (suc remain) left (omega arith) (omega arith)),
      whole,
    )
send_file-Sends (again ∷ answers) (suc remain) left sent p h l = absurd p
send_file-Sends (pipe ∷ answers) (suc remain) left sent p h l = absurd p
send_file-Sends (failed ∷ answers) (suc remain) left sent p h l = absurd p

pub send_file_short :
    (answers : List Answer) (remain : ℕ) (left sent : Bytes)
    → AllWrote answers
    → length left < remain
    → send_file answers remain left sent ≡ none
unfolding send_file
send_file_short [] zero left sent w h = elim h [ ]
send_file_short (a ∷ answers) zero left sent w h = elim h [ ]
send_file_short [] (suc remain) left sent w h = refl
send_file_short (wrote n ∷ answers) (suc remain) left sent w h =
    let moved = take (min n (suc remain)) left in
    send_file_short answers (suc remain - length moved) (drop (length moved) left) (sent ++ moved) w
      (omega (arith, length-drop (length moved) left, length-take (min n (suc remain)) left))
send_file_short (again ∷ answers) (suc remain) left sent w h = absurd w
send_file_short (pipe ∷ answers) (suc remain) left sent w h = absurd w
send_file_short (failed ∷ answers) (suc remain) left sent w h = absurd w
