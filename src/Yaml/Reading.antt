-- ===== src/Yaml/Reading.antt =====
-- The loop of `parseFile` in Core/mstd/yaml.hpp over the lines of such a configuration.
use sok.Base.{
  nat_keys, ℕ, zero, suc, Bool, true, false, List, [], ◌∷◌, ◌++◌, ◌≡◌, refl, ap, ◌∙◌, arith,
  replicate,
}
use sok.Base.Text.{Bytes, Lacks}
use sok.Http.Scan.{Lacks-append}
use sok.Yaml.{text, objects, Fields, end, field, Objects, none_left}
use sok.Yaml.Lines.{trim_back, is_white, starts, is_skipped, is_array}
use sok.Yaml.Tree.{assign, emplace, push_back}
use sok.Yaml.Cursor.{Outcome, done, ◌>>>◌, Parser}
use sok.Yaml.Parse.{read_line, parse_lines, dedent}
use sok.Yaml.Trimming.{
  IsTrimmed, trim-IsTrimmed, trim-replicate, count_indent-replicate, append-IsTrimmed,
}
use sok.Yaml.Print.{
  Entry, IsKey, pair_of, parent_of, dash_of, pair_of-IsTrimmed, outside, in_list, in_item,
}
use sok.Yaml.Steps.{outside-pair, in_item-pair, in_item-outside, in_list-dash, in_item-dash}
use sok.Yaml.Written.{
  Server, pair_lines, server_lines, entries_in, fields_of, servers_in, AreEntries, AreServers,
}

pub dash_of-IsTrimmed : (e : Entry) → IsKey e.key → IsTrimmed e.value → IsTrimmed (dash_of e)
unfolding is_white trim_back
dash_of-IsTrimmed e k v =
    append-IsTrimmed (b'-' ∷ []) (pair_of e) (record { front = refl; back = refl })
      (pair_of-IsTrimmed e k v) (32 ∷ [])

pub parent_of-IsTrimmed : (key : Bytes) → IsKey key → IsTrimmed (parent_of key)
unfolding is_white trim_back
parent_of-IsTrimmed key k =
    append-IsTrimmed key (b':' ∷ []) k.trimmed (record { front = refl; back = refl }) []

pub is_skipped-key : (key s : Bytes) → IsKey key → is_skipped (key ++ s) ≡ false
unfolding is_skipped starts
is_skipped-key [] s k = elim k.trimmed.front [ ]
is_skipped-key (c ∷ key) s k = ground (arith, k.no_comment)

pub is_skipped-dash_of : (e : Entry) → is_skipped (dash_of e) ≡ false
unfolding is_skipped starts
is_skipped-dash_of e = refl

pub Lacks-pair_of : (e : Entry) → IsKey e.key → Lacks 10 e.value → Lacks 10 (pair_of e)
Lacks-pair_of e k v = Lacks-append 10 e.key _ k.one_line (ground arith, (ground arith, v))

pub Lacks-spaces : (n : ℕ) (s : Bytes) → Lacks 10 s → Lacks 10 (replicate n 32 ++ s)
Lacks-spaces zero s h = h
Lacks-spaces (suc n) s h = (ground arith, Lacks-spaces n s h)

pub Lacks-dash_of :
    (e : Entry) → IsKey e.key → Lacks 10 e.value → Lacks 10 (replicate 2 32 ++ dash_of e)
Lacks-dash_of e k v = Lacks-spaces 2 (dash_of e) (ground arith, (ground arith, Lacks-pair_of e k v))

pub is_array-dash_of :
    (e : Entry) (rest : List Bytes)
    → IsKey e.key
    → IsTrimmed e.value
    → is_array ((replicate 2 32 ++ dash_of e) ∷ rest) ≡ true
unfolding is_array starts
is_array-dash_of e rest k v = rw (
  trim-replicate 2 (dash_of e),
  trim-IsTrimmed (dash_of e) (dash_of-IsTrimmed e k v),
  is_skipped-dash_of e,
)

module _ (moves : ℕ → Bool) (stod : Bytes → Bool) where
  pub parse_lines-cons :
      (n : ℕ) (line : Bytes) (rest : List Bytes) (s : Parser)
      → IsTrimmed line
      → is_skipped line ≡ false
      → parse_lines moves stod ((replicate n 32 ++ line) ∷ rest) s
        ≡ (read_line moves stod n line rest s >>> λ s'. parse_lines moves stod rest s')
  unfolding parse_lines
  parse_lines-cons n line rest s t counts =
      rw (
        trim-replicate n line,
        trim-IsTrimmed line t,
        counts,
        count_indent-replicate n line t.front,
      )

  pub parse_lines-line :
      (n : ℕ) (line : Bytes) (rest : List Bytes) (s s' : Parser)
      → IsTrimmed line
      → is_skipped line ≡ false
      → read_line moves stod n line rest s ≡ done s'
      → parse_lines moves stod ((replicate n 32 ++ line) ∷ rest) s ≡ parse_lines moves stod rest s'
  parse_lines-line n line rest s s' t counts read =
      parse_lines-cons n line rest s t counts
      ∙ ap (λ (r : Outcome Parser). r >>> λ s'. parse_lines moves stod rest s') read

  pub parse_lines-outside :
      (es : List Entry) (rest : List Bytes) (m : Fields)
      → AreEntries stod es
      → parse_lines moves stod (pair_lines 0 es ++ rest) (outside m)
        ≡ parse_lines moves stod rest (outside (entries_in es m))
  parse_lines-outside [] rest m w = refl
  parse_lines-outside (e ∷ es) rest m (w, ws) =
      parse_lines-line 0 (pair_of e) (pair_lines 0 es ++ rest) (outside m) _
        (pair_of-IsTrimmed e w.is_key w.trimmed) (is_skipped-key e.key _ w.is_key)
        (outside-pair moves stod e (pair_lines 0 es ++ rest) w m)
      ∙ parse_lines-outside es rest (emplace e.key e.meaning m) ws

  parse_lines-in_item :
      (es : List Entry) (rest : List Bytes) (key : Bytes) (m : Fields) (os : Objects) (f : Fields)
      → AreEntries stod es
      → parse_lines moves stod (pair_lines 4 es ++ rest) (in_item 4 key m os f)
        ≡ parse_lines moves stod rest (in_item 4 key m os (entries_in es f))
  parse_lines-in_item [] rest key m os f w = refl
  parse_lines-in_item (e ∷ es) rest key m os f (w, ws) =
      parse_lines-line 4 (pair_of e) (pair_lines 4 es ++ rest) (in_item 4 key m os f) _
        (pair_of-IsTrimmed e w.is_key w.trimmed) (is_skipped-key e.key _ w.is_key)
        (in_item-pair moves stod e (pair_lines 4 es ++ rest) w 4 key m os f
          (λ s. unfold dedent in refl))
      ∙ parse_lines-in_item es rest key m os (emplace e.key e.meaning f) ws

  -- The lines of an item behind its first.
  pub parse_lines-others :
      (s : Server) (rest : List Bytes) (key : Bytes) (m : Fields) (os : Objects)
      → AreEntries stod (s.second ∷ s.more)
      → parse_lines moves stod
          (pair_lines 4 (s.second ∷ s.more) ++ rest)
          (in_item 2 key m os (field s.first.key (text s.first.value) end))
        ≡ parse_lines moves stod rest (in_item 4 key m os (fields_of s))
  parse_lines-others s rest key m os (w, ws) =
      let e = s.second in
      let later = pair_lines 4 s.more ++ rest in
      parse_lines-line 4 (pair_of e) later (in_item 2 key m os _) _
        (pair_of-IsTrimmed e w.is_key w.trimmed) (is_skipped-key e.key _ w.is_key)
        (in_item-pair moves stod e later w 2 key m os _ (λ s. unfold dedent in refl))
      ∙ parse_lines-in_item s.more rest key m os _ ws

  -- The tree that the lines leave.
  abbrev pub tree_of : List Bytes → Parser → Outcome Fields
  tree_of ls s = parse_lines moves stod ls s >>> λ s'. done s'.root

  tree_of-outside :
      (es : List Entry) (m : Fields)
      → AreEntries stod es
      → tree_of (pair_lines 0 es) (outside m) ≡ done (entries_in es m)
  unfolding parse_lines
  tree_of-outside [] m w = refl
  tree_of-outside (e ∷ es) m (w, ws) =
      ap (λ (r : Outcome Parser). r >>> λ s'. done s'.root)
        (parse_lines-line 0 (pair_of e) (pair_lines 0 es) (outside m) _
          (pair_of-IsTrimmed e w.is_key w.trimmed) (is_skipped-key e.key _ w.is_key)
          (outside-pair moves stod e (pair_lines 0 es) w m))
      ∙ tree_of-outside es _ ws

  tree_of-below :
      (es : List Entry) (key : Bytes) (m : Fields) (os : Objects) (f : Fields)
      → AreEntries stod es
      → tree_of (pair_lines 0 es) (in_item 4 key m os f)
        ≡ done (entries_in es (assign key (objects (push_back f os)) m))
  unfolding parse_lines
  tree_of-below [] key m os f w = refl
  tree_of-below (e ∷ es) key m os f (w, ws) =
      ap (λ (r : Outcome Parser). r >>> λ s'. done s'.root)
        (parse_lines-line 0 (pair_of e) (pair_lines 0 es) (in_item 4 key m os f) _
          (pair_of-IsTrimmed e w.is_key w.trimmed) (is_skipped-key e.key _ w.is_key)
          (in_item-outside moves stod e (pair_lines 0 es) w key m os f))
      ∙ tree_of-outside es _ ws

  pub tree_of-servers :
      (ss : List Server) (es : List Entry) (key : Bytes) (m : Fields) (os : Objects) (f : Fields)
      → AreServers stod ss
      → AreEntries stod es
      → tree_of (server_lines ss (pair_lines 0 es)) (in_item 4 key m os f)
        ≡ done (entries_in es (assign key (objects (servers_in ss (push_back f os))) m))
  tree_of-servers [] es key m os f w v = tree_of-below es key m os f v
  tree_of-servers (s ∷ ss) es key m os f (w, ws) v =
      let later = server_lines ss (pair_lines 0 es) in
      ap (λ (r : Outcome Parser). r >>> λ s'. done s'.root)
        (parse_lines-line 2 (dash_of s.first) _ (in_item 4 key m os f) _
            (dash_of-IsTrimmed s.first w.first_key w.first_trimmed) (is_skipped-dash_of s.first)
            (in_item-dash moves stod _ s.first key m os f w.first_key w.first_trimmed)
          ∙ parse_lines-others s later key m (push_back f os) w.others)
      ∙ tree_of-servers ss es key m (push_back f os) (fields_of s) ws v

  pub tree_of-first :
      (s : Server) (ss : List Server) (es : List Entry) (key : Bytes) (m : Fields)
      → AreServers stod (s ∷ ss)
      → AreEntries stod es
      → tree_of (server_lines (s ∷ ss) (pair_lines 0 es)) (in_list key m none_left)
        ≡ done (entries_in es (assign key (objects (servers_in (s ∷ ss) none_left)) m))
  unfolding push_back
  tree_of-first s ss es key m (w, ws) v =
      let later = server_lines ss (pair_lines 0 es) in
      ap (λ (r : Outcome Parser). r >>> λ s'. done s'.root)
        (parse_lines-line 2 (dash_of s.first) _ (in_list key m none_left) _
            (dash_of-IsTrimmed s.first w.first_key w.first_trimmed) (is_skipped-dash_of s.first)
            (in_list-dash moves stod _ s.first key m none_left w.first_key w.first_trimmed)
          ∙ parse_lines-others s later key m none_left w.others)
      ∙ tree_of-servers ss es key m none_left (fields_of s) ws v
