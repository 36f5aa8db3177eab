-- ===== src/Http/Scan.antt =====
-- The string operations that Core/protocols/http.hpp makes on a request.
use sok.Base.{
  nat_keys, ℕ, Bool, true, false, ◌&&◌, ◌||◌, [], ◌∷◌, ◌++◌, Option, none, some, ◌≡◌, refl, arith,
  ap, if◌then◌else◌, ◌==◌, leb, length, ◌≤◌, ◌<◌, Option-cases, inl, inr,
}
use sok.Base.Text.{Bytes, is_empty, Lacks, starts_with}

abbrev pub newline : ℕ
newline = 10

abbrev pub return : ℕ
return = 13

-- `std::isspace` in the C locale.
unfoldable pub is_space : ℕ → Bool
is_space c = c == 32 || leb 9 c && leb c 13

-- A character of " \t", and one of " \t\r".
unfoldable pub is_blank : ℕ → Bool
is_blank c = c == 32 || c == 9

unfoldable pub is_blank_or_return : ℕ → Bool
unfolding is_blank
is_blank_or_return c = is_blank c || c == return

-- `s.erase(0, s.find_first_not_of(" \t"))`
unfoldable pub trim_start : Bytes → Bytes
trim_start [] = []
trim_start (c ∷ cs) = let rest = trim_start cs in if is_blank c then rest else c ∷ cs

-- `s.erase(s.find_last_not_of(" \t\r") + 1)`
unfoldable pub trim_end : Bytes → Bytes
trim_end [] = []
trim_end (c ∷ cs) =
    let rest = trim_end cs in if is_empty rest && is_blank_or_return c then [] else c ∷ rest

-- `s.find(b)` with the two `substr` around it.
unfoldable pub split_at : ℕ → Bytes → Option (Bytes × Bytes)
split_at b [] = none
split_at b (c ∷ cs) = elim (c == b) [
  | true ↦ some ([], cs)
  | false ↦ elim (split_at b cs) [ none ↦ none | some (before, after) ↦ some (c ∷ before, after) ]
]

-- `std::getline(iss, line)`: fails at the end of the stream; the line is without its newline.
unfoldable pub getline : Bytes → Option (Bytes × Bytes)
getline [] = none
getline (c ∷ cs) = elim (split_at newline (c ∷ cs)) [
  | none ↦ some (c ∷ cs, [])
  | some (line, rest) ↦ some (line, rest)
]

-- `iss >> word`: white space is skipped, and the word ends before the next.
unfoldable pub skip_space : Bytes → Bytes
skip_space [] = []
skip_space (c ∷ cs) = let rest = skip_space cs in if is_space c then rest else c ∷ cs

unfoldable pub take_word : Bytes → Bytes × Bytes
take_word [] = ([], [])
take_word (c ∷ cs) =
    let (word, rest) = take_word cs in if is_space c then ([], c ∷ cs) else (c ∷ word, rest)

unfoldable pub read_word : Bytes → Bytes × Bytes
unfolding skip_space take_word
read_word s = take_word (skip_space s)

abbrev pub blank_line : Bytes
blank_line = return ∷ newline ∷ return ∷ newline ∷ []

-- `s.find("\r\n\r\n")` with the `substr` behind it.
unfoldable pub after_blank_line : Bytes → Option Bytes
after_blank_line [] = none
after_blank_line (c ∷ cs) = elim (starts_with blank_line (c ∷ cs)) [
  | true ↦ elim cs [ a ∷ b ∷ d ∷ rest ↦ some rest | _ ↦ none ]
  | false ↦ after_blank_line cs
]

pub split_at-append :
    (b : ℕ) (before after : Bytes)
    → Lacks b before
    → split_at b (before ++ b ∷ after) ≡ some (before, after)
unfolding split_at
split_at-append b [] after h = ground arith
split_at-append b (c ∷ before) after h = ground (arith, split_at-append b before after h.1)

-- A line is read whole, up to its newline.
pub getline-append :
    (line rest : Bytes) → Lacks newline line → getline (line ++ newline ∷ rest) ≡ some (line, rest)
unfolding getline
getline-append [] rest h = rw (split_at-append newline [] rest tt, getline)
getline-append (c ∷ line) rest h = rw (split_at-append newline (c ∷ line) rest h, getline)

-- A carriage return at the end does not count.
pub trim_end-append : (s : Bytes) → trim_end (s ++ return ∷ []) ≡ trim_end s
unfolding trim_end is_blank_or_return
trim_end-append [] = refl
trim_end-append (c ∷ cs) = rw (trim_end-append cs)

length-trim_start : (s : Bytes) → length (trim_start s) ≤ length s
unfolding trim_start
length-trim_start [] = omega arith
length-trim_start (c ∷ cs) = ground (arith, length-trim_start cs)

pub trim_start-append :
    (s t : Bytes) (c : ℕ)
    → is_blank c ≡ false
    → trim_start s ≡ s
    → trim_start (s ++ c ∷ t) ≡ s ++ c ∷ t
unfolding trim_start
trim_start-append [] t c h e = ground arith
trim_start-append (d ∷ s) t c h e = ground (arith, length-trim_start s, ap (length {A = ℕ}) e)

split_at-length :
    (b : ℕ) (s before after : Bytes) → split_at b s ≡ some (before, after) → length after < length s
unfolding split_at
split_at-length b [] before after e = absurd (ground arith)
split_at-length b (c ∷ cs) before after e = elim (Option-cases (split_at b cs)) [
  | inl none' ↦ ground (arith, ap (λ (r : Option (Bytes × Bytes)). r) none')
  | inr (r, found) ↦ ground (arith, split_at-length b cs r.0 r.1)
]

-- Each line that is read shortens the stream.
pub getline-length : (s line rest : Bytes) → getline s ≡ some (line, rest) → length rest < length s
unfolding getline
getline-length [] line rest e = absurd (ground arith)
getline-length (c ∷ cs) line rest e = elim (Option-cases (split_at newline (c ∷ cs))) [
  | inl last ↦ ground arith
  | inr (r, found) ↦ ground (arith, split_at-length newline (c ∷ cs) r.0 r.1)
]

pub Lacks-append : (b : ℕ) (s t : Bytes) → Lacks b s → Lacks b t → Lacks b (s ++ t)
Lacks-append b [] t h h' = h'
Lacks-append b (c ∷ s) t h h' = (h.0, Lacks-append b s t h.1 h')
