-- ===== src/Yaml/RoundTrip.antt =====
-- A configuration is read back by Core/mstd/yaml.hpp as it was written.
use sok.Base.{nat_keys, ℕ, Bool, List, [], ◌∷◌, ◌++◌, some, ◌≡◌, ap, ◌∙◌, arith}
use sok.Base.Text.{Bytes}
use sok.Http.Scan.{Lacks-append}
use sok.Yaml.{end}
use sok.Yaml.Cursor.{Outcome, done, ◌>>>◌, Parser}
use sok.Yaml.Parse.{parse_file, start}
use sok.Yaml.Trimming.{unlines, AllLack, lines-unlines}
use sok.Yaml.Print.{Entry, pair_of, parent_of, outside}
use sok.Yaml.Steps.{outside-parent}
use sok.Yaml.Written.{
  Server, Configuration, pair_lines, server_lines, print, entries_in, meaning_of, AreEntries,
  AreServers, IsConfiguration,
}
use sok.Yaml.Reading.{
  is_array-dash_of, Lacks-pair_of, Lacks-dash_of, Lacks-spaces, parent_of-IsTrimmed, is_skipped-key,
  parse_lines-line, parse_lines-outside, tree_of, tree_of-first,
}

AllLack-append : (ls ms : List Bytes) → AllLack 10 ls → AllLack 10 ms → AllLack 10 (ls ++ ms)
AllLack-append [] ms h k = k
AllLack-append (l ∷ ls) ms h k = (h.0, AllLack-append ls ms h.1 k)

AllLack-pair_lines :
    (stod : Bytes → Bool) (n : ℕ) (es : List Entry)
    → AreEntries stod es
    → AllLack 10 (pair_lines n es)
AllLack-pair_lines stod n [] w = tt
AllLack-pair_lines stod n (e ∷ es) (w, ws) = (
  Lacks-spaces n (pair_of e) (Lacks-pair_of e w.is_key w.one_line),
  AllLack-pair_lines stod n es ws,
)

AllLack-server_lines :
    (stod : Bytes → Bool) (ss : List Server) (rest : List Bytes)
    → AreServers stod ss
    → AllLack 10 rest
    → AllLack 10 (server_lines ss rest)
AllLack-server_lines stod [] rest w h = h
AllLack-server_lines stod (s ∷ ss) rest (w, ws) h = (
  Lacks-dash_of s.first w.first_key w.first_line,
  AllLack-append (pair_lines 4 (s.second ∷ s.more)) _
      (AllLack-pair_lines stod 4 (s.second ∷ s.more) w.others)
      (AllLack-server_lines stod ss rest ws h),
)

AllLack-print :
    (stod : Bytes → Bool) (c : Configuration) → IsConfiguration stod c → AllLack 10 (print c)
AllLack-print stod c w =
    AllLack-append (pair_lines 0 c.above) _ (AllLack-pair_lines stod 0 c.above w.above) (
      Lacks-append 10 c.list_key _ w.list_key.one_line (ground arith, tt),
      AllLack-server_lines stod (c.server ∷ c.servers) _ w.servers
          (AllLack-pair_lines stod 0 c.below w.below),
    )

-- A configuration that is written in the usual layout is read back: fields, a list whose items have
-- two fields at least, fields. Behind a key of its own a value is read as a truth value, a number or
-- a text; the first value of an item is always a text.
pub parse_file-print :
    (moves : ℕ → Bool) (stod : Bytes → Bool) (c : Configuration)
    → IsConfiguration stod c
    → parse_file moves stod (some (unlines (print c))) ≡ done (meaning_of c)
unfolding parse_file
parse_file-print moves stod c w =
    let es = pair_lines 0 c.below in
    let items = server_lines (c.server ∷ c.servers) es in
    let m = entries_in c.above end in
    ap (λ (ls : List Bytes). tree_of moves stod ls start)
      (lines-unlines (print c) (AllLack-print stod c w))
    ∙ ap (λ (r : Outcome Parser). r >>> λ s. done s.root)
        (parse_lines-outside moves stod c.above (parent_of c.list_key ∷ items) end w.above
          ∙ parse_lines-line moves stod 0 (parent_of c.list_key) items (outside m) _
              (parent_of-IsTrimmed c.list_key w.list_key) (is_skipped-key c.list_key _ w.list_key)
              (outside-parent moves stod items c.list_key m w.list_key (
                is_array-dash_of c.server.first _ w.servers.0.first_key w.servers.0.first_trimmed)))
    ∙ tree_of-first moves stod c.server c.servers c.below c.list_key m w.servers w.below
