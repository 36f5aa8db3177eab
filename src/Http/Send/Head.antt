-- ===== src/Http/Send/Head.antt =====
-- The head of a response of Core/protocols/http.hpp, read back by the server's own parser.
use sok.Base.{
  nat_keys, ℕ, ◌<◌, Bool, true, false, List, [], ◌∷◌, ◌++◌, some, ◌≡◌, refl, arith, if◌then◌else◌,
  length, append_assoc,
}
use sok.Base.Map.{Map, lookup}
use sok.Base.Text.{Bytes, bytes_keys, codes, is_empty, Lacks}
use sok.Http.Decimal.{print_ℕ, value_from, value_from-print_ℕ, print_ℕ-Digits, Digits}
use sok.Http.Headers.{
  IsField, AreFields, parse_headers, print_headers, insert_all, parse_headers-print_headers,
}
use sok.Http.Scan.{
  newline, return, getline, getline-append, trim_start, trim_end, is_blank, is_blank_or_return,
  Lacks-append,
}
use sok.Http.Request.{wants_keep_alive}
use sok.Http.Send.{Response, head, content_type, connection, line_end}

abbrev pub status_line : Response → Bytes
status_line r = r.version ++ 32 ∷ (print_ℕ r.status_code ++ 32 ∷ (r.status_text ++ return ∷ []))

-- The fields of the head, in order.
abbrev pub type_field : Bytes → List (Bytes × Bytes)
type_field mime = if is_empty mime then [] else (codes "Content-Type", mime) ∷ []

abbrev pub connection_field : Bool → List (Bytes × Bytes)
connection_field keep_alive =
    if keep_alive then (codes "Connection", codes "keep-alive") ∷ [] else []

abbrev pub fields : Response → List (Bytes × Bytes)
fields r =
    type_field r.mime
    ++ ((codes "Server", codes "SOK")
        ∷ (codes "Content-Length", print_ℕ (length r.body))
        ∷ connection_field r.keep_alive)

-- What the stream holds from the first field on.
abbrev field_text : Bytes → ℕ → Bool → Bytes
field_text mime size keep_alive =
    content_type mime
    ++ (codes "Server: SOK"
        ++ (line_end
            ++ (codes "Content-Length: "
                ++ (print_ℕ size ++ (line_end ++ (connection keep_alive ++ line_end))))))

abbrev field_list : Bytes → ℕ → Bool → List (Bytes × Bytes)
field_list mime size keep_alive =
    type_field mime
    ++ ((codes "Server", codes "SOK")
        ∷ (codes "Content-Length", print_ℕ size)
        ∷ connection_field keep_alive)

field_text-print_headers :
    (mime : Bytes) (size : ℕ) (keep_alive : Bool)
    → field_text mime size keep_alive ≡ print_headers (field_list mime size keep_alive) []
unfolding content_type connection print_headers
field_text-print_headers [] size true = refl
field_text-print_headers [] size false = refl
field_text-print_headers (c ∷ cs) size true = simp append_assoc
field_text-print_headers (c ∷ cs) size false = simp append_assoc

pub head-print_headers :
    (r : Response) → head r ≡ status_line r ++ newline ∷ print_headers (fields r) []
unfolding head
head-print_headers r =
    rw (← field_text-print_headers r.mime (length r.body) r.keep_alive) (simp append_assoc)

Digits-Lacks : (b : ℕ) (ds : Bytes) → b < b'0' → Digits ds → Lacks b ds
Digits-Lacks b [] h d = tt
Digits-Lacks b (x ∷ ds) h d = ((λ e. omega arith), Digits-Lacks b ds h d.2)

Digits-trim_start : (ds : Bytes) → Digits ds → trim_start ds ≡ ds
unfolding trim_start is_blank
Digits-trim_start [] d = refl
Digits-trim_start (x ∷ ds) d = ground arith

Digits-trim_end : (ds : Bytes) → Digits ds → trim_end ds ≡ ds
unfolding trim_end is_blank_or_return
Digits-trim_end [] d = refl
Digits-trim_end (x ∷ ds) d = ground (arith, Digits-trim_end ds d.2)

plain-IsField :
    (name value : Bytes)
    → Lacks b':' name
    → Lacks newline name
    → Lacks newline value
    → trim_end (trim_start name) ≡ name
    → trim_start value ≡ value
    → trim_end value ≡ value
    → IsField (name, value)
plain-IsField name value a b c d e f = record {
  name_colon = a;
  name_line = b;
  name_trimmed = d;
  value_line = c;
  value_start = e;
  value_end = f;
}

fields-AreFields :
    (mime : Bytes) (size : ℕ) (keep_alive : Bool)
    → IsField (codes "Content-Type", mime)
    → AreFields (field_list mime size keep_alive)
unfolding trim_start trim_end is_blank_or_return
fields-AreFields mime size keep_alive h = typed mime h
  where
    server : IsField (codes "Server", codes "SOK")
    server =
        plain-IsField (codes "Server") (codes "SOK") (omega arith) (omega arith) (omega arith) refl
          refl refl

    digits : Digits (print_ℕ size)
    digits = print_ℕ-Digits size

    size_field : IsField (codes "Content-Length", print_ℕ size)
    size_field =
        plain-IsField (codes "Content-Length") (print_ℕ size) (omega arith) (omega arith)
          (Digits-Lacks newline (print_ℕ size) (omega arith) digits) refl
          (Digits-trim_start (print_ℕ size) digits) (Digits-trim_end (print_ℕ size) digits)

    kept : (b : Bool) → AreFields (connection_field b)
    kept true = (
      plain-IsField (codes "Connection") (codes "keep-alive") (omega arith) (omega arith)
          (omega arith) refl refl refl,
      tt,
    )
    kept false = tt

    typed :
        (m : Bytes) → IsField (codes "Content-Type", m) → AreFields (field_list m size keep_alive)
    typed [] f = (server, (size_field, kept keep_alive))
    typed (c ∷ cs) f = (f, (server, (size_field, kept keep_alive)))

fields-lookup :
    (mime : Bytes) (size : ℕ) (keep_alive : Bool)
    → (lookup (codes "Content-Length") (insert_all (field_list mime size keep_alive) [])
        ≡ some (print_ℕ size))
      × (wants_keep_alive (insert_all (field_list mime size keep_alive) []) ≡ keep_alive)
unfolding wants_keep_alive
fields-lookup [] size true = (refl, refl)
fields-lookup [] size false = (refl, refl)
fields-lookup (c ∷ cs) size true = (refl, refl)
fields-lookup (c ∷ cs) size false = (refl, refl)

-- The head of a response whose texts hold no line break is read back by the server's own parser:
-- first the status line, then headers whose Content-Length stands for the size of the body, and
-- that ask for keep-alive exactly when the response does.
pub head-parse_headers :
    (r : Response)
    → Lacks newline r.version
    → Lacks newline r.status_text
    → IsField (codes "Content-Type", r.mime)
    → (rest : Bytes) × (headers : Map Bytes Bytes) × (digits : Bytes) × (getline (head r)
        ≡ some (status_line r, rest))
      × (parse_headers rest ≡ some headers)
      × (lookup (codes "Content-Length") headers ≡ some digits)
      × (value_from 0 digits ≡ length r.body)
      × (wants_keep_alive headers ≡ r.keep_alive)
head-parse_headers r v t m =
    let code =
      Digits-Lacks newline (print_ℕ r.status_code) (omega arith) (print_ℕ-Digits r.status_code) in
    let line : Lacks newline (status_line r) = Lacks-append newline r.version _ v (
      (λ e. omega arith),
      Lacks-append newline (print_ℕ r.status_code) _ code (
        (λ e. omega arith),
        Lacks-append newline r.status_text (return ∷ []) t ((λ e. omega arith), tt),
      ),
    ) in
    let (size, keep) = fields-lookup r.mime (length r.body) r.keep_alive in
    (
      print_headers (fields r) [],
      insert_all (fields r) [],
      print_ℕ (length r.body),
      rw (head-print_headers r) (getline-append (status_line r) _ line),
      parse_headers-print_headers (fields r) []
          (fields-AreFields r.mime (length r.body) r.keep_alive m),
      size,
      value_from-print_ℕ (length r.body),
      keep,
    )
