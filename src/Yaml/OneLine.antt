-- ===== src/Yaml/OneLine.antt =====
-- Items of one line each, which `parseFile` of Core/mstd/yaml.hpp never leaves.
use sok.Base.{
  nat_keys, ℕ, Bool, true, false, List, [], ◌∷◌, ◌++◌, none, some, ◌≡◌, refl, ap, ◌∙◌, arith,
  if◌then◌else◌, replicate, Bool-cases, inl, inr,
}
use sok.Base.Text.{Bytes, bytes_keys}
use sok.Http.Scan.{Lacks-append}
use sok.Yaml.{text, objects, Fields, end, field, none_left, next, find}
use sok.Yaml.Lines.{starts}
use sok.Yaml.Tree.{
  assign, emplace, push_back, count, element_at, update, update_key, update_objects, update_element,
  resolve, is_below, is_element_of,
}
use sok.Yaml.Cursor.{
  Outcome, done, dangles, ◌>>>◌, Parser, store, store_new, add_element, invalidate,
  invalidate_array,
}
use sok.Yaml.Parse.{
  read_line, read_item, read_pair, last_array, parse_lines, parse_file, start, dedent, leave_level,
}
use sok.Yaml.Trimming.{IsTrimmed, trim-IsTrimmed, unlines, lines-unlines}
use sok.Yaml.Print.{
  Entry, IsKey, IsEntry, pair_of, parent_of, dash_of, pair_of-IsTrimmed, split_at-pair_of,
  is_empty-StartsBlack, trim-space, outside, in_list, in_item, the_array, read_line-pair_of,
}
use sok.Yaml.Steps.{outside-parent, in_list-dash}
use sok.Yaml.Reading.{
  dash_of-IsTrimmed, parent_of-IsTrimmed, is_skipped-key, is_skipped-dash_of, parse_lines-line,
  parse_lines-cons, tree_of, is_array-dash_of, Lacks-pair_of, Lacks-dash_of,
}

-- The vector's first element and its second, and the map that has the vector.
abbrev pub first_item : Bytes → Entry → Fields
first_item key e = field e.key (text e.value) end

-- Behind the second item: the pointer to the first is still on the stack.
abbrev in_second : (ℕ → Bool) → Bytes → Fields → Fields → Parser
in_second moves key f g = record {
  root = field key (objects (next f (next g none_left))) end;
  stack =
      some (element_at key 1 ∷ [])
      ∷ (if moves 1 then none else some (element_at key 0 ∷ []))
      ∷ some []
      ∷ [];
  previous_indent = 2;
  array_stack = the_array key ∷ [];
}

module _ (moves : ℕ → Bool) (stod : Bytes → Bool) (key : Bytes) (f : Fields) where
  add_element-in_second :
      add_element moves [] key (in_item 2 key end none_left f) ≡ done (in_second moves key f end)
  unfolding add_element resolve find assign push_back count update update_key update_objects
      invalidate is_element_of
  add_element-in_second = ground (arith, bytes_keys.same_iff key key)

  read_pair-in_second :
      (e : Entry)
      → IsKey e.key
      → IsTrimmed e.value
      → read_pair (pair_of e) (in_second moves key f end)
        ≡ done (in_second moves key f (field e.key (text e.value) end))
  unfolding read_pair store invalidate invalidate_array is_below assign update update_key
      update_objects update_element find
  read_pair-in_second e k v = elim (Bool-cases (moves 1)) [
    | inl moved ↦ ground (
      arith,
      split_at-pair_of e k,
      trim-space e.value v,
      is_empty-StartsBlack e.value v.front,
      trim-IsTrimmed e.key k.trimmed,
      bytes_keys.same_iff key key,
    )
    | inr stays ↦ ground (
      arith,
      split_at-pair_of e k,
      trim-space e.value v,
      is_empty-StartsBlack e.value v.front,
      trim-IsTrimmed e.key k.trimmed,
      bytes_keys.same_iff key key,
    )
  ]

  in_item-second :
      (e : Entry) (rest : List Bytes)
      → IsKey e.key
      → IsTrimmed e.value
      → read_line moves stod 2 (dash_of e) rest (in_item 2 key end none_left f)
        ≡ done (in_second moves key f (field e.key (text e.value) end))
  unfolding read_line read_item last_array dedent starts
  in_item-second e rest k v =
      rw (trim-space (pair_of e) (pair_of-IsTrimmed e k v), add_element-in_second)
        (ground (
          arith,
          is_empty-StartsBlack (pair_of e) (pair_of-IsTrimmed e k v).front,
          read_pair-in_second e k v,
        ))

  in_second-outside :
      (e : Entry) (g : Fields) (rest : List Bytes)
      → IsEntry stod e
      → read_line moves stod 0 (pair_of e) rest (in_second moves key f g) ≡ (
          if moves 1
          then dangles
          else done
              (record (outside
                (field key (objects (next (emplace e.key e.meaning f) (next g none_left))) end)) {
                  stack = some (element_at key 0 ∷ []) ∷ some [] ∷ [];
                }))
  unfolding store_new dedent leave_level update update_key update_objects update_element find assign
  in_second-outside e g rest w =
      read_line-pair_of moves stod e rest 0 (in_second moves key f g) w
      ∙ elim (Bool-cases (moves 1)) [
        | inl moved ↦ ground (arith, bytes_keys.same_iff key key)
        | inr stays ↦ ground (arith, bytes_keys.same_iff key key)
      ]

-- Two items of one line each and a field below the list.
abbrev pub one_line_items : Bytes → Entry → Entry → Entry → List Bytes
one_line_items key e g below =
    parent_of key
    ∷ (replicate 2 32 ++ dash_of e)
    ∷ (replicate 2 32 ++ dash_of g)
    ∷ pair_of below
    ∷ []

-- Such a file is not read as it is written: where the second item moves the first, the field below
-- the list is stored through a pointer that dangles, and else it lands in the first item.
pub parse_file-one_line_items :
    (moves : ℕ → Bool) (stod : Bytes → Bool) (key : Bytes) (e g below : Entry)
    → IsKey key
    → IsEntry stod e
    → IsEntry stod g
    → IsEntry stod below
    → parse_file moves stod (some (unlines (one_line_items key e g below))) ≡ (
        if moves 1
        then dangles
        else done (
            field key
              (objects (
                next
                  (emplace below.key below.meaning (first_item key e))
                  (next (first_item key g) none_left)))
              end))
unfolding parse_file
parse_file-one_line_items moves stod key e g below k w v u =
    let items =
      (replicate 2 32 ++ dash_of e) ∷ (replicate 2 32 ++ dash_of g) ∷ pair_of below ∷ [] in
    ap (λ (ls : List Bytes). tree_of moves stod ls start)
      (lines-unlines (parent_of key ∷ items) (
        Lacks-append 10 key _ k.one_line (ground arith, tt),
        (
          Lacks-dash_of e w.is_key w.one_line,
          (Lacks-dash_of g v.is_key v.one_line, (Lacks-pair_of below u.is_key u.one_line, tt)),
        ),
      ))
    ∙ ap (λ (r : Outcome Parser). r >>> λ s. done s.root)
        (parse_lines-line moves stod 0 (parent_of key) items start _ (parent_of-IsTrimmed key k)
            (is_skipped-key key _ k)
            (outside-parent moves stod items key end k (is_array-dash_of e _ w.is_key w.trimmed))
          ∙ parse_lines-line moves stod 2 (dash_of e) _ (in_list key end none_left) _
              (dash_of-IsTrimmed e w.is_key w.trimmed) (is_skipped-dash_of e)
              (in_list-dash moves stod _ e key end none_left w.is_key w.trimmed)
          ∙ parse_lines-line moves stod 2 (dash_of g) _
              (in_item 2 key end none_left (first_item key e)) _
              (dash_of-IsTrimmed g v.is_key v.trimmed) (is_skipped-dash_of g)
              (in_item-second moves stod key (first_item key e) g _ v.is_key v.trimmed)
          ∙ parse_lines-cons moves stod 0 (pair_of below) [] _
              (pair_of-IsTrimmed below u.is_key u.trimmed) (is_skipped-key below.key _ u.is_key))
    ∙ ap (λ (r : Outcome Parser). (r >>> λ s'. parse_lines moves stod [] s') >>> λ s. done s.root)
        (in_second-outside moves stod key (first_item key e) below (first_item key g) [] u)
    ∙ last (moves 1) (record (outside _) { stack = some (element_at key 0 ∷ []) ∷ some [] ∷ [] })
  where
    last :
        (b : Bool) (s : Parser)
        → ((if b then dangles else done s) >>> λ s'. parse_lines moves stod [] s')
            >>> (λ s. done s.root)
          ≡ (if b then dangles else done s.root)
    last true s = refl
    last false s = unfold parse_lines in refl
