-- ===== src/Http/Parse.antt =====
-- A request that is well formed is read by Core/protocols/http.hpp as it was written.
use sok.Base.{
  nat_keys, ℕ, true, false, ◌||◌, List, [], ◌∷◌, ◌++◌, some, ◌≡◌, refl, arith, ap, ◌∙◌,
  append_assoc, append-nil, Bool-cases, inl, inr,
}
use sok.Base.Text.{Bytes, bytes_keys, is_empty, starts_with}
use sok.Http.Headers.{print_headers}
use sok.Http.Request.{
  RequestLine, Ending, read_request_line, read_chunks, has_blank_line, is_malformed,
}
use sok.Http.Scan.{
  newline, return, is_space, take_word, read_word, getline-append, after_blank_line, blank_line,
}

-- A word of a request line: not empty, and without white space.
abbrev pub NoSpace : Bytes → Type 0
NoSpace [] = Unit {0}
NoSpace (c ∷ cs) = (is_space c ≡ false) × NoSpace cs

abbrev pub IsWord : Bytes → Type 0
IsWord w = NoSpace w × (is_empty w ≡ false)

pub record IsRequestLine (l : RequestLine) : Type 0 where
  pub method : IsWord l.method
  pub path : IsWord l.path
  pub version : IsWord l.version

unfoldable pub print_request : RequestLine → List (Bytes × Bytes) → Bytes → Bytes
print_request l fields body =
    l.method ++ 32 ∷ (l.path ++ 32 ∷ (l.version ++ return ∷ newline ∷ print_headers fields body))

take_word-append :
    (w rest : Bytes) (c : ℕ)
    → NoSpace w
    → is_space c ≡ true
    → take_word (w ++ c ∷ rest) ≡ (w, c ∷ rest)
unfolding take_word
take_word-append [] rest c n h = ground arith
take_word-append (d ∷ w) rest c n h = ground (arith, take_word-append w rest c n.1)

read_word-append :
    (w rest : Bytes) (c : ℕ)
    → IsWord w
    → is_space c ≡ true
    → read_word (w ++ c ∷ rest) ≡ (w, c ∷ rest)
unfolding read_word
read_word-append [] rest c n h = cc
read_word-append (d ∷ w) rest c n h = ground (arith, take_word-append (d ∷ w) rest c n.0)

read_word-space :
    (w rest : Bytes) (c : ℕ)
    → IsWord w
    → is_space c ≡ true
    → read_word (32 ∷ (w ++ c ∷ rest)) ≡ (w, c ∷ rest)
unfolding read_word is_space
read_word-space w rest c n h = read_word-append w rest c n h

pub read_request_line-print_request :
    (l : RequestLine) (fields : List (Bytes × Bytes)) (body : Bytes)
    → IsRequestLine l
    → read_request_line (print_request l fields body) ≡ (l, print_headers fields body)
unfolding read_request_line print_request is_space
read_request_line-print_request l fields body w =
    let lines = return ∷ newline ∷ print_headers fields body in
    let version = l.version ++ lines in
    rw (
      read_word-append l.method (l.path ++ 32 ∷ version) 32 w.method refl,
      read_word-space l.path version 32 w.path refl,
      read_word-space l.version (newline ∷ print_headers fields body) return w.version refl,
      getline-append (return ∷ []) (print_headers fields body) ((λ e. omega arith), tt),
    )

pub IsRequestLine-well_formed : (l : RequestLine) → IsRequestLine l → is_malformed l ≡ false
unfolding is_malformed
IsRequestLine-well_formed l w = ground arith

starts_with-append : (p s t : Bytes) → starts_with p s ≡ true → starts_with p (s ++ t) ≡ true
starts_with-append [] s t h = refl
starts_with-append (x ∷ p) [] t h = cc
starts_with-append (x ∷ p) (c ∷ s) t h = ground (arith, starts_with-append p s t)

has_blank_line_lem :
    (c : ℕ) (cs : Bytes)
    → has_blank_line (c ∷ cs) ≡ (starts_with blank_line (c ∷ cs) || has_blank_line cs)
unfolding has_blank_line after_blank_line
has_blank_line_lem c [] = ground arith
has_blank_line_lem c (a ∷ []) = ground arith
has_blank_line_lem c (a ∷ b ∷ []) = ground arith
has_blank_line_lem c (a ∷ b ∷ d ∷ rest) =
    elim (Bool-cases (starts_with blank_line (c ∷ a ∷ b ∷ d ∷ rest))) [
      | inl e ↦ ground arith
      | inr e ↦ ground arith
    ]

-- A blank line that has been read stays.
has_blank_line-append : (s t : Bytes) → has_blank_line s ≡ true → has_blank_line (s ++ t) ≡ true
has_blank_line-append [] t h = unfold has_blank_line after_blank_line in cc
has_blank_line-append (c ∷ cs) t h = ground (
  arith,
  has_blank_line_lem c cs,
  has_blank_line_lem c (cs ++ t),
  has_blank_line-append cs t,
  starts_with-append blank_line (c ∷ cs) t,
)

has_blank_line-prepend : (s t : Bytes) → has_blank_line t ≡ true → has_blank_line (s ++ t) ≡ true
has_blank_line-prepend [] t h = h
has_blank_line-prepend (c ∷ cs) t h =
    ground (arith, has_blank_line_lem c (cs ++ t), has_blank_line-prepend cs t h)

has_blank_line-print_headers :
    (fields : List (Bytes × Bytes)) (body : Bytes)
    → has_blank_line (return ∷ newline ∷ print_headers fields body) ≡ true
unfolding print_headers
has_blank_line-print_headers [] body = unfold has_blank_line after_blank_line in refl
has_blank_line-print_headers (f ∷ fs) body = has_blank_line-prepend (return ∷ newline ∷ []) _ (
    has_blank_line-prepend f.0 _ (
      has_blank_line-prepend (b':' ∷ 32 ∷ []) _
        (has_blank_line-prepend f.1 _ (has_blank_line-print_headers fs body))))

pub has_blank_line-print_request :
    (l : RequestLine) (fields : List (Bytes × Bytes)) (body : Bytes)
    → has_blank_line (print_request l fields body) ≡ true
unfolding print_request
has_blank_line-print_request l fields body = has_blank_line-prepend l.method _ (
    has_blank_line-prepend (32 ∷ []) _ (
      has_blank_line-prepend l.path _ (
        has_blank_line-prepend (32 ∷ []) _
          (has_blank_line-prepend l.version _ (has_blank_line-print_headers fields body)))))

pub print_request-nonempty :
    (l : RequestLine) (fields : List (Bytes × Bytes)) (body : Bytes)
    → IsRequestLine l
    → is_empty (print_request l fields body) ≡ false
unfolding print_request
print_request-nonempty l fields body w = nonempty l.method _ w.method.1
  where
    nonempty : (s t : Bytes) → is_empty s ≡ false → is_empty (s ++ t) ≡ false
    nonempty [] t h = cc
    nonempty (c ∷ s) t h = refl

abbrev pub join : List Bytes → Bytes
join [] = []
join (chunk ∷ chunks) = chunk ++ join chunks

pub read_chunks_partial :
    (request : Bytes) (chunks : List Bytes) (ending : Ending)
    → has_blank_line (request ++ join chunks) ≡ false
    → read_chunks request chunks ending ≡ (request ++ join chunks, some ending)
unfolding read_chunks
read_chunks_partial request [] ending h = ground (arith, append-nil request)
read_chunks_partial request (chunk ∷ chunks) ending h =
    let shape = append_assoc request chunk (join chunks) in
    elim (Bool-cases (has_blank_line (request ++ chunk))) [
      | inl found ↦
          absurd
            (ground (arith, shape, has_blank_line-append (request ++ chunk) (join chunks) found))
      | inr more ↦
          rw (more, read_chunks)
            (read_chunks_partial (request ++ chunk) chunks ending (rw shape h)
              ∙ ap (λ (s : Bytes). (s, some ending)) shape)
    ]
