-- ===== src/Yaml/Written.antt =====
-- The configurations that are written for Core/mstd/yaml.hpp: fields, one list of servers with two
-- fields each at least, and fields again.
use sok.Base.{nat_keys, ℕ, Bool, List, [], ◌∷◌, ◌++◌, replicate}
use sok.Base.Text.{Bytes, Lacks}
use sok.Yaml.{text, objects, Fields, end, field, Objects, none_left}
use sok.Yaml.Tree.{assign, emplace, push_back}
use sok.Yaml.Trimming.{IsTrimmed}
use sok.Yaml.Print.{Entry, IsKey, IsEntry, pair_of, parent_of, dash_of}

-- A server with two fields at least, and a configuration with one server at least.
pub record Server : Type 0 where
  pub first : Entry
  pub second : Entry
  pub more : List Entry

pub record Configuration : Type 0 where
  pub above : List Entry
  pub list_key : Bytes
  pub server : Server
  pub servers : List Server
  pub below : List Entry

abbrev pub pair_lines : ℕ → List Entry → List Bytes
pair_lines n [] = []
pair_lines n (e ∷ es) = (replicate n 32 ++ pair_of e) ∷ pair_lines n es

abbrev pub server_lines : List Server → List Bytes → List Bytes
server_lines [] rest = rest
server_lines (s ∷ ss) rest =
    (replicate 2 32 ++ dash_of s.first) ∷ (pair_lines 4 (s.second ∷ s.more) ++ server_lines ss rest)

abbrev pub print : Configuration → List Bytes
print c =
    pair_lines 0 c.above
    ++ parent_of c.list_key ∷ server_lines (c.server ∷ c.servers) (pair_lines 0 c.below)

-- What it stands for. The first value of an item is a text, whatever it looks like.
abbrev pub entries_in : List Entry → Fields → Fields
entries_in [] m = m
entries_in (e ∷ es) m = entries_in es (emplace e.key e.meaning m)

abbrev pub fields_of : Server → Fields
fields_of s = entries_in (s.second ∷ s.more) (field s.first.key (text s.first.value) end)

abbrev pub servers_in : List Server → Objects → Objects
servers_in [] os = os
servers_in (s ∷ ss) os = servers_in ss (push_back (fields_of s) os)

abbrev pub meaning_of : Configuration → Fields
meaning_of c = entries_in c.below (
    assign c.list_key (objects (servers_in (c.server ∷ c.servers) none_left))
      (entries_in c.above end))

abbrev pub AreEntries : (Bytes → Bool) → List Entry → Type 0
AreEntries stod [] = Unit {0}
AreEntries stod (e ∷ es) = IsEntry stod e × AreEntries stod es

pub record IsServer (stod : Bytes → Bool) (s : Server) : Type 0 where
  pub first_key : IsKey s.first.key
  pub first_trimmed : IsTrimmed s.first.value
  pub first_line : Lacks 10 s.first.value
  pub others : AreEntries stod (s.second ∷ s.more)

abbrev pub AreServers : (Bytes → Bool) → List Server → Type 0
AreServers stod [] = Unit {0}
AreServers stod (s ∷ ss) = IsServer stod s × AreServers stod ss

pub record IsConfiguration (stod : Bytes → Bool) (c : Configuration) : Type 0 where
  pub above : AreEntries stod c.above
  pub list_key : IsKey c.list_key
  pub servers : AreServers stod (c.server ∷ c.servers)
  pub below : AreEntries stod c.below
