-- ===== src/Yaml/Tests.antt =====
-- Core/mstd/yaml.hpp on small files.
use sok.Base.{nat_keys, true, [], ◌∷◌, some, ◌≡◌, refl, arith}
use sok.Base.Text.{Bytes, codes}
use sok.Base.Int.{pos}
use sok.Http.Decimal.{value_from}
use sok.Http.Scan.{split_at}
use sok.Yaml.Trimming.{unlines}
use sok.Yaml.Print.{Entry, IsEntry}
use sok.Yaml.Written.{Configuration, IsConfiguration, print, meaning_of}
use sok.Yaml.RoundTrip.{parse_file-print}
use sok.Yaml.OneLine.{one_line_items, parse_file-one_line_items}
use sok.Yaml.{Value, text, int, objects, field, end, none_left, next, find}
use sok.Yaml.Lines.{
  lines, trim, trim_front, trim_back, is_white, count_indent, starts, is_skipped, is_array,
}
use sok.Yaml.Tree.{
  assign, emplace, push_back, count, update, update_key, update_object, update_objects,
  update_element, resolve, element, is_below, is_element_of,
}
use sok.Yaml.Cursor.{
  dangles, done, scalar, inner, store, store_new, enter, open_array, add_element, invalidate,
  invalidate_array,
}
use sok.Yaml.Parse.{
  parse_file, parse_lines, read_line, dedent, leave_level, read_item, read_field, read_pair,
  last_array, read_value, read_parent,
}

program : Unit {0}
unfolding parse_file parse_lines read_line dedent leave_level read_item read_field read_pair
    last_array read_value read_parent lines trim trim_front trim_back is_white count_indent starts
    is_skipped is_array assign emplace push_back count update update_key update_object
    update_objects update_element resolve element is_below is_element_of scalar inner store
    store_new enter open_array add_element invalidate invalidate_array split_at value_from find
program = tt

abbrev config : Bytes
config =
    codes
      "cpu_cores: 4\nservers:\n  - name: a\n    port: 80\n  # second\n  - name: b\n    port: 443\nlast: \"x\"\n"

config_is_read :
    parse_file (λ n. true) (λ t. true) (some config)
    ≡ done (
        field (codes "cpu_cores") (int (pos 4)) (
          field
            (codes "servers")
            (objects (
              next
                (field (codes "name") (text (codes "a")) (field (codes "port") (int (pos 80)) end))
                (next
                  (field
                    (codes "name")
                    (text (codes "b"))
                    (field (codes "port") (int (pos 443)) end))
                  none_left)))
            (field (codes "last") (text (codes "\"x\"")) end)))
unfolding program
config_is_read = refl

items_of_one_line :
    parse_file (λ n. true) (λ t. true) (some (codes "a:\n  - k: 1\n  - k: 2\nz: 3\n")) ≡ dangles
unfolding program
items_of_one_line = refl

abbrev entry : Bytes → Bytes → Value → Entry
entry key value meaning = record { key = key; value = value; meaning = meaning }

abbrev cores : Entry
cores = entry (codes "cpu_cores") (codes "4") (int (pos 4))

abbrev below : Entry
below = entry (codes "log") (codes "on # now") (text (codes "on # now"))

abbrev named : Entry
named = entry (codes "name") (codes "1") (text (codes "1"))

abbrev listening : Entry
listening = entry (codes "port") (codes "80") (int (pos 80))

cores-IsEntry : IsEntry (λ t. true) cores
unfolding program
cores-IsEntry = record {
  is_key = record {
    trimmed = record { front = refl; back = refl };
    no_comment = refl;
    no_item = refl;
    no_colon = omega arith;
    one_line = omega arith;
  };
  trimmed = record { front = refl; back = refl };
  one_line = omega arith;
  no_list = refl;
  means = refl;
}

below-IsEntry : IsEntry (λ t. true) below
unfolding program
below-IsEntry = record {
  is_key = record {
    trimmed = record { front = refl; back = refl };
    no_comment = refl;
    no_item = refl;
    no_colon = omega arith;
    one_line = omega arith;
  };
  trimmed = record { front = refl; back = refl };
  one_line = omega arith;
  no_list = refl;
  means = refl;
}

listening-IsEntry : IsEntry (λ t. true) listening
unfolding program
listening-IsEntry = record {
  is_key = record {
    trimmed = record { front = refl; back = refl };
    no_comment = refl;
    no_item = refl;
    no_colon = omega arith;
    one_line = omega arith;
  };
  trimmed = record { front = refl; back = refl };
  one_line = omega arith;
  no_list = refl;
  means = refl;
}

abbrev small : Configuration
small = record {
  above = cores ∷ [];
  list_key = codes "servers";
  server = record { first = named; second = listening; more = [] };
  servers = [];
  below = below ∷ [];
}

small-IsConfiguration : IsConfiguration (λ t. true) small
unfolding program
small-IsConfiguration = record {
  above = (cores-IsEntry, tt);
  list_key = record {
    trimmed = record { front = refl; back = refl };
    no_comment = refl;
    no_item = refl;
    no_colon = omega arith;
    one_line = omega arith;
  };
  servers = (
    record {
      first_key = record {
        trimmed = record { front = refl; back = refl };
        no_comment = refl;
        no_item = refl;
        no_colon = omega arith;
        one_line = omega arith;
      };
      first_trimmed = record { front = refl; back = refl };
      first_line = omega arith;
      others = (listening-IsEntry, tt);
    },
    tt,
  );
  below = (below-IsEntry, tt);
}

parse_file-print_example :
    parse_file (λ n. true) (λ t. true) (some (unlines (print small))) ≡ done (meaning_of small)
parse_file-print_example = parse_file-print (λ n. true) (λ t. true) small small-IsConfiguration

parse_file-one_line_items_example :
    parse_file
      (λ n. true)
      (λ t. true)
      (some (unlines (one_line_items (codes "servers") cores listening below)))
    ≡ dangles
parse_file-one_line_items_example =
    parse_file-one_line_items (λ n. true) (λ t. true) (codes "servers") cores listening below
      small-IsConfiguration.list_key cores-IsEntry listening-IsEntry below-IsEntry
