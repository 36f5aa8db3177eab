-- ===== src/Yaml/Print.antt =====
-- A configuration as it is written for Core/mstd/yaml.hpp, and how `parseFile` reads each of its
-- lines.
use sok.Base.{nat_keys, ℕ, Bool, false, List, [], ◌∷◌, ◌++◌, none, some, ◌≡◌, refl, ◌∙◌, arith}
use sok.Base.Text.{Bytes, bytes_keys, is_empty, Lacks}
use sok.Http.Scan.{split_at, split_at-append}
use sok.Yaml.{Value, objects, Fields, Objects}
use sok.Yaml.Lines.{trim, starts}
use sok.Yaml.Tree.{assign, push_back, count, element_at}
use sok.Yaml.Cursor.{done, ◌>>>◌, Parser, OpenArray, scalar, inner, store_new}
use sok.Yaml.Parse.{read_line, read_field, read_value, dedent}
use sok.Yaml.Trimming.{StartsBlack, IsTrimmed, trim-IsTrimmed, trim-replicate, append-IsTrimmed}

-- A key with its value's text, and what the text stands for behind a key of its own.
pub record Entry : Type 0 where
  pub key : Bytes
  pub value : Bytes
  pub meaning : Value

-- The key can be told from a comment, an item and its value.
pub record IsKey (key : Bytes) : Type 0 where
  pub trimmed : IsTrimmed key
  pub no_comment : starts b'#' key ≡ false
  pub no_item : starts b'-' key ≡ false
  pub no_colon : Lacks b':' key
  pub one_line : Lacks 10 key

pub record IsEntry (stod : Bytes → Bool) (e : Entry) : Type 0 where
  pub is_key : IsKey e.key
  pub trimmed : IsTrimmed e.value
  pub one_line : Lacks 10 e.value
  pub no_list : inner e.value ≡ none
  pub means : scalar stod e.value ≡ done e.meaning

-- "key: value"
abbrev pub pair_of : Entry → Bytes
pair_of e = e.key ++ (b':' ∷ 32 ∷ [] ++ e.value)

-- "key:"
abbrev pub parent_of : Bytes → Bytes
parent_of key = key ++ b':' ∷ []

-- "- key: value"
abbrev pub dash_of : Entry → Bytes
dash_of e = b'-' ∷ 32 ∷ pair_of e

pub pair_of-IsTrimmed : (e : Entry) → IsKey e.key → IsTrimmed e.value → IsTrimmed (pair_of e)
pair_of-IsTrimmed e k v = append-IsTrimmed e.key e.value k.trimmed v (b':' ∷ 32 ∷ [])

pub split_at-pair_of :
    (e : Entry) → IsKey e.key → split_at b':' (pair_of e) ≡ some (e.key, 32 ∷ e.value)
split_at-pair_of e k = split_at-append b':' e.key (32 ∷ e.value) k.no_colon

pub starts-append : (c : ℕ) (s t : Bytes) → StartsBlack s → starts c (s ++ t) ≡ starts c s
unfolding starts
starts-append c [] t h = elim h [ ]
starts-append c (d ∷ s) t h = refl

pub is_empty-StartsBlack : (s : Bytes) → StartsBlack s → is_empty s ≡ false
is_empty-StartsBlack [] h = elim h [ ]
is_empty-StartsBlack (c ∷ s) h = refl

pub trim-space : (s : Bytes) → IsTrimmed s → trim (32 ∷ s) ≡ s
trim-space s h = trim-replicate 1 s ∙ trim-IsTrimmed s h

-- The places of the loop in such a file: outside of the list, behind its key, and in its last item.
abbrev pub outside : Fields → Parser
outside m = record { root = m; stack = some [] ∷ []; previous_indent = 0; array_stack = [] }

abbrev pub the_array : Bytes → OpenArray
the_array key = record { array = some ([], key); indent = 2 }

abbrev pub in_list : Bytes → Fields → Objects → Parser
in_list key m os = record {
  root = assign key (objects os) m;
  stack = some [] ∷ [];
  previous_indent = 0;
  array_stack = the_array key ∷ [];
}

abbrev pub in_item : ℕ → Bytes → Fields → Objects → Fields → Parser
in_item indent key m os e = record {
  root = assign key (objects (push_back e os)) m;
  stack = some (element_at key (count os) ∷ []) ∷ some [] ∷ [];
  previous_indent = indent;
  array_stack = the_array key ∷ [];
}

module _ (moves : ℕ → Bool) (stod : Bytes → Bool) (e : Entry) (rest : List Bytes) where
  -- A field is read into the map that the top of the stack points to.
  pub read_field-pair_of :
      (n : ℕ) (s : Parser)
      → IsEntry stod e
      → read_field stod n (pair_of e) rest s ≡ store_new e.key e.meaning s
  unfolding read_field read_value
  read_field-pair_of n s w = ground (
    arith,
    split_at-pair_of e w.is_key,
    trim-space e.value w.trimmed,
    is_empty-StartsBlack e.value w.trimmed.front,
    trim-IsTrimmed e.key w.is_key.trimmed,
    w.no_list,
    w.means,
  )

  pub read_line-pair_of :
      (n : ℕ) (s : Parser)
      → IsEntry stod e
      → read_line moves stod n (pair_of e) rest s ≡ (
          store_new e.key e.meaning (dedent n s.previous_indent s) >>> λ s'.
          done (record s' { previous_indent = n }))
  unfolding read_line
  read_line-pair_of n s w = rw (
    starts-append b'-' e.key (b':' ∷ 32 ∷ [] ++ e.value) w.is_key.trimmed.front,
    w.is_key.no_item,
    read_line,
    read_field-pair_of n (dedent n s.previous_indent s) w,
  )
