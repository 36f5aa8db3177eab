-- ===== src/Http/Headers.antt =====
-- `parse_headers` of Core/protocols/http.hpp (the same text stands in https.hpp).
use sok.Base.{
  nat_keys, ℕ, zero, suc, ◌<◌, true, false, List, [], ◌∷◌, ◌++◌, Option, none, some, ◌≡◌, refl,
  arith, ◌==◌, length, append_assoc, Bool-cases, Option-cases, inl, inr,
}
use sok.Base.Map.{Map, insert}
use sok.Base.Text.{Bytes, bytes_keys, Lacks}
use sok.Http.Scan.{
  newline, return, is_blank, trim_start, trim_end, split_at, getline, split_at-append,
  getline-append, trim_end-append, getline-length, trim_start-append, Lacks-append,
}

abbrev pub Headers : Type 0
Headers = Map Bytes Bytes

-- The body of the loop: a line without a colon is passed over.
unfoldable pub add_header : Bytes → Headers → Headers
add_header line headers = elim (split_at b':' line) [
  | none ↦ headers
  | some (key, value) ↦ insert (trim_end (trim_start key)) (trim_end (trim_start value)) headers
]

-- The loop, up to a line that is a lone carriage return or the end; `none` means that the rounds
-- did not suffice.
unfoldable pub parse_lines : ℕ → Bytes → Headers → Option Headers
parse_lines zero iss headers = none
parse_lines (suc rounds) iss headers = elim (getline iss) [
  | none ↦ some headers
  | some (line, rest) ↦ elim (line == return ∷ []) [
    | true ↦ some headers
    | false ↦ parse_lines rounds rest (add_header line headers)
  ]
]

-- One round for each byte, and one for the end.
unfoldable pub parse_headers : Bytes → Option Headers
parse_headers iss = parse_lines (suc (length iss)) iss []

parse_lines_total :
    (rounds : ℕ) (iss : Bytes) (headers : Headers)
    → length iss < rounds
    → (result : Headers) × (parse_lines rounds iss headers ≡ some result)
unfolding parse_lines
parse_lines_total zero iss headers h = elim h [ ]
parse_lines_total (suc rounds) iss headers h = elim (Option-cases (getline iss)) [
  | inl end ↦ (headers, rw (end, parse_lines))
  | inr ((line, rest), more) ↦ elim (Bool-cases (line == return ∷ [])) [
    | inl last ↦ (headers, rw (more, parse_lines, last))
    | inr field ↦
        rw (more, parse_lines, field)
          (parse_lines_total rounds rest (add_header line headers)
            (omega (arith, getline-length iss line rest more)))
  ]
]

-- The loop ends on every input.
pub parse_headers_total : (iss : Bytes) → (headers : Headers) × (parse_headers iss ≡ some headers)
unfolding parse_headers
parse_headers_total iss = parse_lines_total (suc (length iss)) iss [] (omega arith)

-- A field that can be sent: no line break, no colon in the name, no white space at the ends.
pub record IsField (field : Bytes × Bytes) : Type 0 where
  pub name_colon : Lacks b':' field.0
  pub name_line : Lacks newline field.0
  pub name_trimmed : trim_end (trim_start field.0) ≡ field.0
  pub value_line : Lacks newline field.1
  pub value_start : trim_start field.1 ≡ field.1
  pub value_end : trim_end field.1 ≡ field.1

abbrev pub AreFields : List (Bytes × Bytes) → Type 0
AreFields [] = Unit {0}
AreFields (f ∷ fs) = IsField f × AreFields fs

-- The fields as they stand in a message, with what follows the blank line.
unfoldable pub print_headers : List (Bytes × Bytes) → Bytes → Bytes
print_headers [] body = return ∷ newline ∷ body
print_headers (f ∷ fs) body = f.0 ++ b':' ∷ 32 ∷ (f.1 ++ return ∷ newline ∷ print_headers fs body)

-- Where a name is repeated, the last value counts.
abbrev pub insert_all : List (Bytes × Bytes) → Headers → Headers
insert_all [] headers = headers
insert_all (f ∷ fs) headers = insert_all fs (insert f.0 f.1 headers)

abbrev line_of : Bytes × Bytes → Bytes
line_of f = f.0 ++ b':' ∷ 32 ∷ (f.1 ++ return ∷ [])

line_of-ne : (name rest : Bytes) → (name ++ b':' ∷ 32 ∷ rest == return ∷ []) ≡ false
line_of-ne [] rest = refl
line_of-ne (c ∷ []) rest = ground arith
line_of-ne (c ∷ d ∷ name) rest = ground arith

add_header-line_of :
    (f : Bytes × Bytes) (headers : Headers)
    → IsField f
    → add_header (line_of f) headers ≡ insert f.0 f.1 headers
unfolding add_header is_blank trim_start
add_header-line_of f headers h =
    let split = split_at-append b':' f.0 (32 ∷ (f.1 ++ return ∷ [])) h.name_colon in
    let start = trim_start-append f.1 [] return refl h.value_start in
    rw (split, add_header, start, trim_end-append f.1, h.value_end, h.name_trimmed)

getline-print_headers :
    (f : Bytes × Bytes) (rest : Bytes)
    → IsField f
    → getline (f.0 ++ b':' ∷ 32 ∷ (f.1 ++ return ∷ newline ∷ rest)) ≡ some (line_of f, rest)
getline-print_headers f rest h =
    let shape : f.0 ++ b':' ∷ 32 ∷ (f.1 ++ return ∷ newline ∷ rest) ≡ line_of f ++ newline ∷ rest =
      simp append_assoc in
    rw shape (
      getline-append (line_of f) rest (
        Lacks-append newline f.0 _ h.name_line (
          (λ e. omega arith),
          (
            (λ e. omega arith),
            Lacks-append newline f.1 (return ∷ []) h.value_line ((λ e. omega arith), tt),
          ),
        )))

parse_lines-print_headers :
    (rounds : ℕ) (fields : List (Bytes × Bytes)) (body : Bytes) (headers : Headers)
    → AreFields fields
    → length (print_headers fields body) < rounds
    → parse_lines rounds (print_headers fields body) headers ≡ some (insert_all fields headers)
unfolding parse_lines print_headers
parse_lines-print_headers zero fields body headers ok room = elim room [ ]
parse_lines-print_headers (suc rounds) [] body headers ok room =
    rw (getline-append (return ∷ []) body ((λ e. omega arith), tt), parse_lines)
parse_lines-print_headers (suc rounds) (f ∷ fs) body headers ok room =
    let rest = print_headers fs body in
    let read = getline-print_headers f rest ok.0 in
    rw (read, parse_lines, line_of-ne f.0 (f.1 ++ return ∷ []), add_header-line_of f headers ok.0)
      (parse_lines-print_headers rounds fs body (insert f.0 f.1 headers) ok.1
        (omega (arith, getline-length _ (line_of f) rest read)))

-- Fields that are printed are read back, whatever follows the blank line: each name has the value
-- that was printed last for it.
pub parse_headers-print_headers :
    (fields : List (Bytes × Bytes)) (body : Bytes)
    → AreFields fields
    → parse_headers (print_headers fields body) ≡ some (insert_all fields [])
unfolding parse_headers
parse_headers-print_headers fields body ok =
    parse_lines-print_headers _ fields body [] ok (omega arith)
