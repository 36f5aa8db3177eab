-- ===== src/Site/Configured.antt =====
-- From the text of a configuration to the ports that SOK.cpp listens on and their sites.
use sok.Base.{
  nat_keys, ℕ, ◌^◌, ◌<◌, Bool, true, List, [], ◌∷◌, ◌++◌, none, some, ◌≡◌, refl, sym, ap, ◌∙◌,
  arith, map, append-nil, append_assoc,
}
use sok.Base.Int.{ℤ}
use sok.Base.Text.{Bytes, bytes_keys, codes, Lacks}
use sok.Site.{site_info, server_ports, read_ports}
use sok.Site.Listening.{contains}
use sok.Site.Roots.{
  Site, Serves, server_of, ports_of, site_at, info_of, site_info-server_of, get_array-Serves,
}
use sok.Yaml.{
  Value, text, objects, Fields, end, field, Objects, none_left, next, find, ok, get_array, get_int,
  object_readers,
}
use sok.Yaml.Lines.{starts, trim_back, is_white}
use sok.Yaml.Tree.{emplace, push_back}
use sok.Yaml.Cursor.{done, scalar, inner}
use sok.Yaml.Parse.{parse_file}
use sok.Yaml.Places.{find-assign}
use sok.Yaml.Trimming.{IsTrimmed, unlines}
use sok.Yaml.Print.{Entry, IsKey}
use sok.Yaml.Written.{
  Server, Configuration, print, entries_in, fields_of, servers_in, meaning_of, AreEntries, IsServer,
  AreServers,
}
use sok.Yaml.RoundTrip.{parse_file-print}
use sok.Yaml.Numerals.{number-IsEntry}

find-emplace :
    (q k : Bytes) (v w : Value) (m : Fields) → find q m ≡ some v → find q (emplace k w m) ≡ some v
unfolding find emplace
find-emplace q k v w end h = ground arith
find-emplace q k v w (field j u m) h = ground (arith, find-emplace q k v w m)

pub find-entries_in :
    (q : Bytes) (v : Value) (es : List Entry) (m : Fields)
    → find q m ≡ some v
    → find q (entries_in es m) ≡ some v
find-entries_in q v [] m h = h
find-entries_in q v (e ∷ es) m h =
    find-entries_in q v es (emplace e.key e.meaning m) (find-emplace q e.key v e.meaning m h)

abbrev pub configuration_of : List Entry → Site → List Site → List Entry → Configuration
configuration_of above s ss below = record {
  above = above;
  list_key = codes "servers";
  server = server_of s;
  servers = map server_of ss;
  below = below;
}

-- The name is one line, the port fits in an `int`, and the root is read as a text.
pub record IsSite (stod : Bytes → Bool) (s : Site) : Type 0 where
  pub name_trimmed : IsTrimmed s.name
  pub name_line : Lacks 10 s.name
  pub port_fits : s.port < 2 ^ 31
  pub root_trimmed : IsTrimmed s.root_dir
  pub root_line : Lacks 10 s.root_dir
  pub root_no_list : inner s.root_dir ≡ none
  pub root_text : scalar stod s.root_dir ≡ done (text s.root_dir)

abbrev pub AreSites : (Bytes → Bool) → List Site → Type 0
AreSites stod [] = Unit {0}
AreSites stod (s ∷ ss) = IsSite stod s × AreSites stod ss

name-IsKey : IsKey (codes "name")
unfolding is_white trim_back starts
name-IsKey = record {
  trimmed = record { front = refl; back = refl };
  no_comment = refl;
  no_item = refl;
  no_colon = omega arith;
  one_line = omega arith;
}

port-IsKey : IsKey (codes "port")
unfolding is_white trim_back starts
port-IsKey = record {
  trimmed = record { front = refl; back = refl };
  no_comment = refl;
  no_item = refl;
  no_colon = omega arith;
  one_line = omega arith;
}

root-IsKey : IsKey (codes "root")
unfolding is_white trim_back starts
root-IsKey = record {
  trimmed = record { front = refl; back = refl };
  no_comment = refl;
  no_item = refl;
  no_colon = omega arith;
  one_line = omega arith;
}

pub servers-IsKey : IsKey (codes "servers")
unfolding is_white trim_back starts
servers-IsKey = record {
  trimmed = record { front = refl; back = refl };
  no_comment = refl;
  no_item = refl;
  no_colon = omega arith;
  one_line = omega arith;
}

server_of-IsServer : (stod : Bytes → Bool) (s : Site) → IsSite stod s → IsServer stod (server_of s)
server_of-IsServer stod s w = record {
  first_key = name-IsKey;
  first_trimmed = w.name_trimmed;
  first_line = w.name_line;
  others = (
    number-IsEntry stod (codes "port") s.port port-IsKey w.port_fits,
    (
      record {
        is_key = root-IsKey;
        trimmed = w.root_trimmed;
        one_line = w.root_line;
        no_list = w.root_no_list;
        means = w.root_text;
      },
      tt,
    ),
  );
}

pub AreServers-map :
    (stod : Bytes → Bool) (ss : List Site) → AreSites stod ss → AreServers stod (map server_of ss)
AreServers-map stod [] w = tt
AreServers-map stod (s ∷ ss) w = (server_of-IsServer stod s w.0, AreServers-map stod ss w.1)

object_readers-push_back :
    (m : Fields) (os : Objects) → object_readers (push_back m os) ≡ object_readers os ++ m ∷ []
unfolding object_readers push_back
object_readers-push_back m none_left = refl
object_readers-push_back m (next n os) = ap (◌∷◌ n) (object_readers-push_back m os)

object_readers-servers_in :
    (ss : List Server) (os : Objects)
    → object_readers (servers_in ss os) ≡ object_readers os ++ map fields_of ss
object_readers-servers_in [] os = sym (append-nil (object_readers os))
object_readers-servers_in (s ∷ ss) os =
    object_readers-servers_in ss (push_back (fields_of s) os)
    ∙ ap (λ (l : List Fields). l ++ map fields_of ss) (object_readers-push_back (fields_of s) os)
    ∙ append_assoc (object_readers os) (fields_of s ∷ []) (map fields_of ss)

-- The readers of the list that a configuration has.
pub get_array-meaning_of :
    (c : Configuration)
    → get_array (meaning_of c) c.list_key ≡ ok (map fields_of (c.server ∷ c.servers))
unfolding get_array object_readers
get_array-meaning_of c =
    rw
      (
        find-entries_in c.list_key _ c.below _ (
            find-assign c.list_key (objects (servers_in (c.server ∷ c.servers) none_left))
              (entries_in c.above end)),
        get_array,
      )
      (ap ok (object_readers-servers_in (c.server ∷ c.servers) none_left))

server_ports-server_of :
    (ss : List Site) → server_ports (map fields_of (map server_of ss)) ≡ ok (ports_of ss)
unfolding server_ports get_int emplace
server_ports-server_of [] = refl
server_ports-server_of (s ∷ ss) = rw (server_ports-server_of ss)

parse_file-configuration_of :
    (moves : ℕ → Bool) (stod : Bytes → Bool) (above below : List Entry) (s : Site) (ss : List Site)
    → AreEntries stod above
    → AreEntries stod below
    → AreSites stod (s ∷ ss)
    → parse_file moves stod (some (unlines (print (configuration_of above s ss below))))
      ≡ done (meaning_of (configuration_of above s ss below))
parse_file-configuration_of moves stod above below s ss a b w =
    parse_file-print moves stod (configuration_of above s ss below) (record {
      above = a;
      list_key = servers-IsKey;
      servers = AreServers-map stod (s ∷ ss) w;
      below = b;
    })

-- A configuration with these sites that is written in the usual layout gives `main` exactly their
-- ports, in their order, and each port that it listens on the first site of the configuration that
-- has the port: `SiteInfo` reads the name and the root of that site, with the quotes around them
-- gone, and keeps its fields; wherever vectors move, and whatever fields stand above and below.
pub parse_file-Serves :
    (moves : ℕ → Bool) (stod : Bytes → Bool) (above below : List Entry) (s : Site) (ss : List Site)
    → AreEntries stod above
    → AreEntries stod below
    → AreSites stod (s ∷ ss)
    → (root : Fields) × (parse_file moves stod
          (some (unlines (print (configuration_of above s ss below))))
        ≡ done root)
      × (read_ports root ≡ ok (ports_of (s ∷ ss)))
      × ((p : ℤ) → contains p (ports_of (s ∷ ss)) ≡ true → Serves p (s ∷ ss) root)
unfolding read_ports
parse_file-Serves moves stod above below s ss a b w =
    let c = configuration_of above s ss below in
    let array = get_array-meaning_of c in
    (
      meaning_of c,
      parse_file-configuration_of moves stod above below s ss a b w,
      rw (array, read_ports) (server_ports-server_of (s ∷ ss)),
      λ p h. get_array-Serves p (meaning_of c) (s ∷ ss) array h,
    )

-- A port gets the first site of the configuration that has it.
pub site_info-configuration_of :
    (moves : ℕ → Bool) (stod : Bytes → Bool) (above below : List Entry) (s : Site) (ss : List Site)
    (root : Fields) (p : ℤ) (t : Site)
    → AreEntries stod above
    → AreEntries stod below
    → AreSites stod (s ∷ ss)
    → parse_file moves stod (some (unlines (print (configuration_of above s ss below)))) ≡ done root
    → site_at p (s ∷ ss) ≡ some t
    → site_info p root ≡ ok (info_of p t)
site_info-configuration_of moves stod above below s ss root p t a b w parsed found =
    let c = configuration_of above s ss below in
    let read = parse_file-configuration_of moves stod above below s ss a b w in
    let same : meaning_of c ≡ root = cc in
    let array : get_array root (codes "servers") ≡ ok (map fields_of (map server_of (s ∷ ss))) =
      ap (λ (m : Fields). get_array m (codes "servers")) (sym same) ∙ get_array-meaning_of c in
    site_info-server_of p root (s ∷ ss) t array found
