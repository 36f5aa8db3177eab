-- ===== src/Site.antt =====
-- Core/utils/SiteConfig.hpp: the site that a port belongs to; and the ports that SOK.cpp reads.
pub mod Listening
pub mod Configured
pub mod Roots
mod Tests
use sok.Base.{ℕ, Bool, true, false, List, [], ◌∷◌, Option, none, some, if◌then◌else◌, ◌==◌}
use sok.Base.Int.{ℤ, int_keys}
use sok.Base.Text.{Bytes, codes, is_empty}
use sok.Yaml.{Fields, Result, ok, throws, ◌>>=◌, get_array, get_int, get_text}

-- Before a server matches, the port is not set.
pub record SiteInfo : Type 0 where
  pub name : Bytes
  pub root_dir : Bytes
  pub port : Option ℤ
  pub site_config : Fields

-- The loop of the constructor: the first server with the port.
unfoldable pub find_site : ℤ → SiteInfo → List Fields → Result SiteInfo
find_site p site [] = ok site
find_site p site (server ∷ servers) =
    let rest = find_site p site servers in
    get_int server (codes "port") >>= λ port.
    if p == port
    then (get_text server (codes "name") >>= λ name. get_text server (codes "root") >>= λ root_dir.
        ok (record { name = name; root_dir = root_dir; port = some p; site_config = server }))
    else rest

unfoldable pub site_info : ℤ → Fields → Result SiteInfo
site_info p root = get_array root (codes "servers") >>= λ servers.
    find_site p (record { name = []; root_dir = []; port = none; site_config = root }) servers

-- `getSiteName`; `none` where it throws.
unfoldable pub get_site_name : SiteInfo → Option Bytes
get_site_name s = if is_empty s.name then none else some s.name

-- The ports that `main` collects.
unfoldable pub server_ports : List Fields → Result (List ℤ)
server_ports [] = ok []
server_ports (server ∷ servers) =
    let rest = server_ports servers in
    get_int server (codes "port") >>= λ port. rest >>= λ ports. ok (port ∷ ports)

unfoldable pub read_ports : Fields → Result (List ℤ)
read_ports root = get_array root (codes "servers") >>= server_ports
