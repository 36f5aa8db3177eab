-- ===== src/Site/Tests.antt =====
-- A configuration of two sites, read by Core/utils/SiteConfig.hpp and SOK.cpp.
use sok.Base.{ℕ, Option, some, true, arith, [], ◌∷◌, ◌≡◌, refl}
use sok.Base.Int.{ℤ, pos}
use sok.Base.Text.{Bytes, codes}
use sok.Site.{find_site, site_info, read_ports}
use sok.Site.Listening.{contains}
use sok.Site.Roots.{Site, Serves}
use sok.Site.Configured.{AreSites, configuration_of, parse_file-Serves}
use sok.Yaml.Lines.{trim_back, is_white}
use sok.Yaml.Cursor.{done, scalar, inner}
use sok.Yaml.Parse.{parse_file}
use sok.Yaml.Trimming.{unlines}
use sok.Yaml.Written.{print}
use sok.Yaml.{
  text, int, objects, Fields, end, field, none_left, next, ok, get_array, get_int, get_text,
  unquote,
}

abbrev server : ℕ → Bytes → Fields
server port root =
    field (codes "port") (int (pos port))
      (field (codes "name") (text (codes "site")) (field (codes "root") (text root) end))

abbrev config : Fields
config =
    field (codes "servers")
      (objects
        (next (server 8080 (codes "\"www/a\"")) (next (server 8081 (codes "www/b")) none_left)))
      end

second_site :
    site_info (pos 8081) config
    ≡ ok (record {
      name = codes "site";
      root_dir = codes "www/b";
      port = Option.some (pos 8081);
      site_config = server 8081 (codes "www/b");
    })
unfolding site_info find_site get_array get_int get_text unquote
second_site = refl

abbrev first_site : Site
first_site = record { name = codes "one"; port = 8080; root_dir = codes "www/a" }

abbrev second_site_of : Site
second_site_of = record { name = codes "two"; port = 8081; root_dir = codes "\"www b\"" }

is_written : AreSites (λ t. true) (first_site ∷ second_site_of ∷ [])
unfolding scalar trim_back is_white inner
is_written = (
  record {
    name_trimmed = record { front = refl; back = refl };
    name_line = omega arith;
    port_fits = omega arith;
    root_trimmed = record { front = refl; back = refl };
    root_line = omega arith;
    root_no_list = refl;
    root_text = refl;
  },
  (
    record {
      name_trimmed = record { front = refl; back = refl };
      name_line = omega arith;
      port_fits = omega arith;
      root_trimmed = record { front = refl; back = refl };
      root_line = omega arith;
      root_no_list = refl;
      root_text = refl;
    },
    tt,
  ),
)

parse_file-Serves_example :
    (root : Fields) × (parse_file
        (λ n. true)
        (λ t. true)
        (some (unlines (print (configuration_of [] first_site (second_site_of ∷ []) []))))
      ≡ done root)
    × (read_ports root ≡ ok (pos 8080 ∷ pos 8081 ∷ []))
    × ((p : ℤ)
        → contains p (pos 8080 ∷ pos 8081 ∷ []) ≡ true
        → Serves p (first_site ∷ second_site_of ∷ []) root)
parse_file-Serves_example =
    parse_file-Serves (λ n. true) (λ t. true) [] [] first_site (second_site_of ∷ []) tt tt
      is_written
