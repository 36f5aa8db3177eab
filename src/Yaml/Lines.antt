-- ===== src/Yaml/Lines.antt =====
-- The text operations of `parseFile` in Core/mstd/yaml.hpp.
use sok.Base.{
  nat_keys, ℕ, suc, Bool, true, false, ◌&&◌, ◌||◌, List, [], ◌∷◌, if◌then◌else◌, ◌==◌, leb,
}
use sok.Base.Text.{Bytes, is_empty}

-- The lines that `getline` reads, one after the other: the last may lack its newline.
unfoldable pub lines : Bytes → List Bytes
lines [] = []
lines (c ∷ cs) =
    let later = lines cs in
    if c == 10 then [] ∷ later else elim later [ [] ↦ (c ∷ []) ∷ [] | l ∷ ls ↦ (c ∷ l) ∷ ls ]

-- A character of " \t\n\r".
unfoldable pub is_white : ℕ → Bool
is_white c = c == 32 || c == 9 || c == 10 || c == 13

unfoldable pub trim_front : Bytes → Bytes
trim_front [] = []
trim_front (c ∷ cs) = let rest = trim_front cs in if is_white c then rest else c ∷ cs

unfoldable pub trim_back : Bytes → Bytes
trim_back [] = []
trim_back (c ∷ cs) = let rest = trim_back cs in if is_empty rest && is_white c then [] else c ∷ rest

unfoldable pub trim : Bytes → Bytes
trim s = trim_back (trim_front s)

unfoldable pub count_indent : Bytes → ℕ
count_indent [] = 0
count_indent (c ∷ cs) = let more = suc (count_indent cs) in if c == 32 then more else 0

-- `line[0] == c`, for a line that is not empty.
unfoldable pub starts : ℕ → Bytes → Bool
starts c [] = false
starts c (d ∷ s) = d == c

-- A line that the loops pass over: blank or a comment.
unfoldable pub is_skipped : Bytes → Bool
unfolding starts
is_skipped line = is_empty line || starts b'#' line

-- The look-ahead behind a key without a value: is the next line that counts an item?
unfoldable pub is_array : List Bytes → Bool
is_array [] = false
is_array (next_line ∷ rest) =
    let later = is_array rest in
    if is_skipped (trim next_line) then later else starts b'-' (trim next_line)

-- `value.find_first_not_of(chars) == npos`
unfoldable pub consists_of : (ℕ → Bool) → Bytes → Bool
consists_of p [] = true
consists_of p (c ∷ cs) = p c && consists_of p cs

unfoldable pub is_digit : ℕ → Bool
is_digit c = leb b'0' c && leb c b'9'

unfoldable pub is_digit_or_dot : ℕ → Bool
unfolding is_digit
is_digit_or_dot c = is_digit c || c == b'.'

-- The pieces between the commas.
unfoldable pub split_commas : Bytes → List Bytes
split_commas [] = [] ∷ []
split_commas (c ∷ cs) = elim (split_commas cs) [
  | [] ↦ []
  | w ∷ ws ↦ if c == b',' then [] ∷ w ∷ ws else (c ∷ w) ∷ ws
]
