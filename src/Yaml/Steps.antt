-- ===== src/Yaml/Steps.antt =====
-- What one line of a written configuration does to the variables of `parseFile`.
use sok.Base.{nat_keys, ℕ, Bool, true, List, [], ◌∷◌, ◌≡◌, refl, ◌∙◌, arith}
use sok.Base.Text.{Bytes, bytes_keys}
use sok.Http.Scan.{split_at-append}
use sok.Yaml.{text, objects, Fields, end, field, Objects, none_left}
use sok.Yaml.Lines.{trim, trim_front, trim_back, starts, is_array}
use sok.Yaml.Tree.{assign, emplace, push_back, update, resolve, is_below, is_element_of}
use sok.Yaml.Cursor.{
  done, Parser, store, store_new, open_array, add_element, invalidate, invalidate_array,
}
use sok.Yaml.Parse.{
  read_line, read_field, read_parent, read_item, read_pair, last_array, dedent, leave_level,
}
use sok.Yaml.Trimming.{IsTrimmed, trim-IsTrimmed}
use sok.Yaml.Places.{update-last, update-push_back, find-assign}
use sok.Yaml.Print.{
  Entry, IsKey, IsEntry, pair_of, parent_of, dash_of, pair_of-IsTrimmed, split_at-pair_of,
  is_empty-StartsBlack, trim-space, outside, in_list, in_item, read_line-pair_of, starts-append,
}

trim-nil : trim [] ≡ []
unfolding trim trim_front trim_back
trim-nil = refl

module _ (moves : ℕ → Bool) (stod : Bytes → Bool) (e : Entry) (rest : List Bytes)
    (w : IsEntry stod e) where
  pub outside-pair :
      (m : Fields)
      → read_line moves stod 0 (pair_of e) rest (outside m)
        ≡ done (outside (emplace e.key e.meaning m))
  unfolding store_new dedent update
  outside-pair m = read_line-pair_of moves stod e rest 0 (outside m) w

  pub in_item-pair :
      (p : ℕ) (key : Bytes) (m : Fields) (os : Objects) (f : Fields)
      → ((s : Parser) → dedent 4 p s ≡ s)
      → read_line moves stod 4 (pair_of e) rest (in_item p key m os f)
        ≡ done (in_item 4 key m os (emplace e.key e.meaning f))
  unfolding store_new
  in_item-pair p key m os f h =
      read_line-pair_of moves stod e rest 4 (in_item p key m os f) w
      ∙ rw (h (in_item p key m os f), update-last key (emplace e.key e.meaning) f os m)

  pub in_item-outside :
      (key : Bytes) (m : Fields) (os : Objects) (f : Fields)
      → read_line moves stod 0 (pair_of e) rest (in_item 4 key m os f)
        ≡ done (outside (emplace e.key e.meaning (assign key (objects (push_back f os)) m)))
  unfolding store_new dedent update leave_level
  in_item-outside key m os f = read_line-pair_of moves stod e rest 0 (in_item 4 key m os f) w

module _ (moves : ℕ → Bool) (stod : Bytes → Bool) (rest : List Bytes) where
  pub outside-parent :
      (key : Bytes) (m : Fields)
      → IsKey key
      → is_array rest ≡ true
      → read_line moves stod 0 (parent_of key) rest (outside m) ≡ done (in_list key m none_left)
  unfolding read_line read_field read_parent store open_array dedent update is_below invalidate
      invalidate_array
  outside-parent key m k h = ground (
    arith,
    split_at-append b':' key [] k.no_colon,
    trim-IsTrimmed key k.trimmed,
    k.no_item,
    trim-nil,
    starts-append b'-' key (b':' ∷ []) k.trimmed.front,
    h,
  )

  add_element-in_list :
      (p : ℕ) (key : Bytes) (m : Fields) (os : Objects)
      → add_element moves [] key (record (in_list key m os) { previous_indent = p })
        ≡ done (record (in_item 2 key m os end) { previous_indent = p })
  unfolding add_element resolve invalidate is_element_of
  add_element-in_list p key m os =
      ground (arith, find-assign key (objects os) m, update-push_back key end os m)

  -- The first pair of an item: its value stays a text.
  read_pair-in_item :
      (e : Entry) (p : ℕ) (key : Bytes) (m : Fields) (os : Objects)
      → IsKey e.key
      → IsTrimmed e.value
      → read_pair (pair_of e) (record (in_item 2 key m os end) { previous_indent = p })
        ≡ done
            (record (in_item 2 key m os (field e.key (text e.value) end)) { previous_indent = p })
  unfolding read_pair store invalidate invalidate_array is_below assign
  read_pair-in_item e p key m os k v = ground (
    arith,
    split_at-pair_of e k,
    trim-space e.value v,
    is_empty-StartsBlack e.value v.front,
    trim-IsTrimmed e.key k.trimmed,
    update-last key (assign e.key (text e.value)) end os m,
  )

  read_item-dash :
      (e : Entry) (p : ℕ) (key : Bytes) (m : Fields) (os : Objects)
      → IsKey e.key
      → IsTrimmed e.value
      → read_item moves (pair_of e) (record (in_list key m os) { previous_indent = p })
        ≡ done
            (record (in_item 2 key m os (field e.key (text e.value) end)) { previous_indent = p })
  unfolding read_item last_array
  read_item-dash e p key m os k v = ground (
    arith,
    is_empty-StartsBlack (pair_of e) (pair_of-IsTrimmed e k v).front,
    add_element-in_list p key m os,
    read_pair-in_item e p key m os k v,
  )

  -- The first item, and an item behind another.
  pub in_list-dash :
      (e : Entry) (key : Bytes) (m : Fields) (os : Objects)
      → IsKey e.key
      → IsTrimmed e.value
      → read_line moves stod 2 (dash_of e) rest (in_list key m os)
        ≡ done (in_item 2 key m os (field e.key (text e.value) end))
  unfolding read_line dedent starts
  in_list-dash e key m os k v =
      rw (trim-space (pair_of e) (pair_of-IsTrimmed e k v), read_item-dash e 0 key m os k v)

  pub in_item-dash :
      (e : Entry) (key : Bytes) (m : Fields) (os : Objects) (f : Fields)
      → IsKey e.key
      → IsTrimmed e.value
      → read_line moves stod 2 (dash_of e) rest (in_item 4 key m os f)
        ≡ done (in_item 2 key m (push_back f os) (field e.key (text e.value) end))
  unfolding read_line dedent leave_level starts
  in_item-dash e key m os f k v = rw (
    trim-space (pair_of e) (pair_of-IsTrimmed e k v),
    read_item-dash e 4 key m (push_back f os) k v,
  )
