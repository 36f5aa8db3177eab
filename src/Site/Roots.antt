-- ===== src/Site/Roots.antt =====
-- Which of the sites of a configuration Core/utils/SiteConfig.hpp gives a port.
use sok.Base.{
  ℕ, true, List, [], ◌∷◌, Option, none, some, if◌then◌else◌, ◌==◌, ◌≡◌, ap, arith, map, Bool-cases,
  inl, inr,
}
use Prim.Native.String.{String}
use sok.Base.Int.{ℤ, pos, int_keys}
use sok.Base.Text.{Bytes, codes}
use sok.Site.{SiteInfo, find_site, site_info}
use sok.Site.Listening.{contains}
use sok.Yaml.{Value, text, Fields, ok, get_array, get_int, get_text, unquote}
use sok.Yaml.Numerals.{number}
use sok.Yaml.Print.{Entry}
use sok.Yaml.Tree.{emplace}
use sok.Yaml.Written.{Server, fields_of}

-- A site as it is written: its name, its port and its root.
pub record Site : Type 0 where
  pub name : Bytes
  pub port : ℕ
  pub root_dir : Bytes

abbrev pub entry : String → Bytes → Value → Entry
entry key value meaning = record { key = codes key; value = value; meaning = meaning }

abbrev pub server_of : Site → Server
server_of s = record {
  first = entry "name" s.name (text s.name);
  second = number (codes "port") s.port;
  more = entry "root" s.root_dir (text s.root_dir) ∷ [];
}

abbrev pub ports_of : List Site → List ℤ
ports_of ss = map (λ (s : Site). pos s.port) ss

-- The first site of the list with the port.
abbrev pub site_at : ℤ → List Site → Option Site
site_at p [] = none
site_at p (s ∷ ss) = if p == pos s.port then some s else site_at p ss

-- What `SiteInfo` makes of it: quotes around a text go.
abbrev pub info_of : ℤ → Site → SiteInfo
info_of p s = record {
  name = unquote s.name;
  root_dir = unquote s.root_dir;
  port = some p;
  site_config = fields_of (server_of s);
}

-- The port gets the name, the root and the fields of the first of the sites that has it.
abbrev pub Serves : ℤ → List Site → Fields → Type 0
Serves p ss root = (s : Site) × (site_at p ss ≡ some s) × (site_info p root ≡ ok (info_of p s))

find_site-server_of :
    (p : ℤ) (i : SiteInfo) (ss : List Site) (s : Site)
    → site_at p ss ≡ some s
    → find_site p i (map fields_of (map server_of ss)) ≡ ok (info_of p s)
unfolding find_site get_int get_text emplace
find_site-server_of p i [] s e = absurd (ground arith)
find_site-server_of p i (t ∷ ss) s e = elim (Bool-cases (p == pos t.port)) [
  | inl here ↦
      (let same : t ≡ s = ground arith in rw here (ap (λ (u : Site). ok (info_of p u)) same))
  | inr there ↦ rw there (find_site-server_of p i ss s (ground arith))
]

pub site_at-contains :
    (p : ℤ) (ss : List Site)
    → contains p (ports_of ss) ≡ true
    → (s : Site) × (site_at p ss ≡ some s)
site_at-contains p [] h = absurd (ground arith)
site_at-contains p (t ∷ ss) h = elim (Bool-cases (p == pos t.port)) [
  | inl here ↦ (t, ground arith)
  | inr there ↦ (let (s, found) = site_at-contains p ss (ground arith) in (s, ground arith))
]

pub site_info-server_of :
    (p : ℤ) (root : Fields) (ss : List Site) (s : Site)
    → get_array root (codes "servers") ≡ ok (map fields_of (map server_of ss))
    → site_at p ss ≡ some s
    → site_info p root ≡ ok (info_of p s)
unfolding site_info
site_info-server_of p root ss s array found =
    rw (array, site_info) (find_site-server_of p _ ss s found)

-- A port of the sites that the list `servers` holds gets the first one that has it.
pub get_array-Serves :
    (p : ℤ) (root : Fields) (ss : List Site)
    → get_array root (codes "servers") ≡ ok (map fields_of (map server_of ss))
    → contains p (ports_of ss) ≡ true
    → Serves p ss root
get_array-Serves p root ss array h =
    let (s, found) = site_at-contains p ss h in
    (s, found, site_info-server_of p root ss s array found)
