-- ===== src/Yaml/Parse.antt =====
-- `parseFile` of Core/mstd/yaml.hpp, line by line.
use sok.Base.{
  nat_keys, ℕ, zero, suc, ◌+◌, Bool, List, [], ◌∷◌, Option, none, some, if◌then◌else◌, ◌==◌, ltb,
  drop,
}
use sok.Base.Text.{Bytes, bytes_keys, is_empty}
use sok.Http.Scan.{split_at}
use sok.Yaml.{text, object, objects, items, Fields, end, none_left}
use sok.Yaml.Lines.{lines, trim, count_indent, starts, is_skipped, is_array, split_commas}
use sok.Yaml.Tree.{Place}
use sok.Yaml.Cursor.{
  no_parent_key, invalid_item, invalid_line, Outcome, done, throws, ◌>>>◌, or_dangles, Pointer,
  OpenArray, Parser, scalar, inner, collect, store, store_new, enter, open_array, add_element,
}

-- The vector that an item goes to.
unfoldable pub last_array : List OpenArray → Outcome (Place × Bytes)
last_array [] = throws no_parent_key
last_array (a ∷ rest) = or_dangles a.array

-- What stands behind the dash, if anything does. Its value stays a text.
unfoldable pub read_pair : Bytes → Parser → Outcome Parser
read_pair line s = elim (split_at b':' line) [
  | none ↦ throws (invalid_item line)
  | some (key, value) ↦
      if is_empty (trim value)
      then store (trim key) (object end) s >>> enter (trim key)
      else store (trim key) (text (trim value)) s
]

unfoldable pub read_item : (ℕ → Bool) → Bytes → Parser → Outcome Parser
read_item moves line s = last_array s.array_stack >>> λ (place, key).
    add_element moves place key s >>> λ s'. if is_empty line then done s' else read_pair line s'

-- A key and its value; `rest` are the lines that the look-ahead sees.
unfoldable pub read_value : (Bytes → Bool) → Bytes → Bytes → Parser → Outcome Parser
read_value stod key value s = elim (inner value) [
  | some list ↦ store key (items (collect (split_commas list))) s
  | none ↦ scalar stod value >>> λ v. store_new key v s
]

unfoldable pub read_parent : Bytes → ℕ → List Bytes → Parser → Outcome Parser
read_parent key current_indent rest s =
    if is_array rest
    then store key (objects none_left) s >>> open_array key (current_indent + 2)
    else store key (object end) s >>> enter key

unfoldable pub read_field : (Bytes → Bool) → ℕ → Bytes → List Bytes → Parser → Outcome Parser
read_field stod current_indent line rest s = elim (split_at b':' line) [
  | none ↦ throws (invalid_line line)
  | some (key, value) ↦
      if is_empty (trim value)
      then read_parent (trim key) current_indent rest s
      else read_value stod (trim key) (trim value) s
]

-- The arrays whose items are indented deeper are closed.
unfoldable pub close_arrays : ℕ → List OpenArray → List OpenArray
close_arrays current_indent [] = []
close_arrays current_indent (a ∷ rest) =
    let closed = close_arrays current_indent rest in
    if ltb current_indent a.indent then closed else a ∷ rest

-- `if (stack.size() > 1) stack.pop_back();`
unfoldable pub leave : List Pointer → List Pointer
leave [] = []
leave (p ∷ []) = p ∷ []
leave (p ∷ q ∷ ps) = q ∷ ps

unfoldable pub leave_level : ℕ → Parser → Parser
unfolding leave close_arrays
leave_level current_indent s = record s {
  stack = leave s.stack;
  array_stack = close_arrays current_indent s.array_stack;
}

-- The loop over the levels, for what is left of `previousIndent`.
unfoldable pub dedent : ℕ → ℕ → Parser → Parser
dedent current_indent zero s = s
dedent current_indent (suc zero) s = if current_indent == 0 then leave_level current_indent s else s
dedent current_indent (suc (suc previous)) s =
    let left = dedent current_indent previous (leave_level current_indent s) in
    if ltb current_indent (suc (suc previous)) then left else s

-- The body of the loop, for a trimmed line that counts.
unfoldable pub read_line :
    (ℕ → Bool) → (Bytes → Bool) → ℕ → Bytes → List Bytes → Parser → Outcome Parser
read_line moves stod current_indent line rest s =
    let s' = dedent current_indent s.previous_indent s in
    let read =
      if starts b'-' line
      then read_item moves (trim (drop 1 line)) s'
      else read_field stod current_indent line rest s' in
    read >>> λ s''. done (record s'' { previous_indent = current_indent })

unfoldable pub parse_lines : (ℕ → Bool) → (Bytes → Bool) → List Bytes → Parser → Outcome Parser
parse_lines moves stod [] s = done s
parse_lines moves stod (line ∷ rest) s =
    let skipped = parse_lines moves stod rest s in
    if is_skipped (trim line)
    then skipped
    else (read_line moves stod (count_indent line) (trim line) rest s >>> λ s'.
        parse_lines moves stod rest s')

abbrev pub start : Parser
start = record { root = end; stack = some [] ∷ []; previous_indent = 0; array_stack = [] }

-- A file that cannot be opened leaves the reader empty.
unfoldable pub parse_file : (ℕ → Bool) → (Bytes → Bool) → Option Bytes → Outcome Fields
parse_file moves stod none = done end
parse_file moves stod (some file) = parse_lines moves stod (lines file) start >>> λ s. done s.root
