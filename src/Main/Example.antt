-- ===== src/Main/Example.antt =====
-- A configuration of one site, as it is written, for the runs of SOK.cpp.
use sok.Base.{List, nat_keys, ◌*◌, true, [], ◌∷◌, Option, none, some, ◌≡◌, refl, arith, take}
use sok.Base.Int.{pos}
use sok.Base.Text.{Bytes, bytes_keys, codes}
use sok.FileCache
use sok.FileCache.{FileView, load_file, read_into, get_file_size, get_file_last_write_time}
use sok.FileCache.Mime.{get_mime_type}
use sok.Http.Parse.{print_request}
use sok.Http.Request.{RequestLine, no_data}
use sok.Http.Scan.{is_space}
use sok.Http.Send.{wrote}
use sok.Https
use sok.Site.Roots.{Site}
use sok.Site.Configured.{AreSites, configuration_of, servers-IsKey, AreServers-map}
use sok.Worker.{Event}
use sok.Worker.Requests.{IsGet, IsOnDisk}
use sok.Yaml.{Fields, unquote}
use sok.Yaml.Cursor.{scalar, inner}
use sok.Yaml.Cursor
use sok.Yaml.Lines.{starts, trim_back, is_white}
use sok.Yaml.Trimming.{unlines}
use sok.Yaml.Print.{Entry, IsKey}
use sok.Yaml.Parse.{parse_file}
use sok.Yaml.RoundTrip.{parse_file-print}
use sok.Yaml.Written.{Configuration, meaning_of, print, AreEntries}
use sok.Yaml.Numerals.{number, number-IsEntry}

program : Unit {0}
unfolding trim_back is_white starts scalar inner unquote is_space print_request load_file read_into
    get_file_size get_file_last_write_time FileCache.init
program = tt

abbrev pub site : Site
site = record { name = codes "two"; port = 9090; root_dir = codes "www" }

pub site_is_written : AreSites (λ t. true) (site ∷ [])
unfolding program
site_is_written = (
  record {
    name_trimmed = record { front = refl; back = refl };
    name_line = omega arith;
    port_fits = omega arith;
    root_trimmed = record { front = refl; back = refl };
    root_line = omega arith;
    root_no_list = refl;
    root_text = refl;
  },
  tt,
)

abbrev pub limits : List Entry
limits =
    number (codes "cpu_cores") 2
    ∷ number (codes "per_process_max_events") 64
    ∷ number (codes "per_process_max_thread_count") 8
    ∷ []

cores-IsKey : IsKey (codes "cpu_cores")
unfolding program
cores-IsKey = record {
  trimmed = record { front = refl; back = refl };
  no_comment = refl;
  no_item = refl;
  no_colon = omega arith;
  one_line = omega arith;
}

events-IsKey : IsKey (codes "per_process_max_events")
unfolding program
events-IsKey = record {
  trimmed = record { front = refl; back = refl };
  no_comment = refl;
  no_item = refl;
  no_colon = omega arith;
  one_line = omega arith;
}

threads-IsKey : IsKey (codes "per_process_max_thread_count")
unfolding program
threads-IsKey = record {
  trimmed = record { front = refl; back = refl };
  no_comment = refl;
  no_item = refl;
  no_colon = omega arith;
  one_line = omega arith;
}

pub limits_are_written : AreEntries (λ t. true) limits
limits_are_written = (
  number-IsEntry (λ t. true) (codes "cpu_cores") 2 cores-IsKey (omega arith),
  (
    number-IsEntry (λ t. true) (codes "per_process_max_events") 64 events-IsKey (omega arith),
    (
      number-IsEntry (λ t. true) (codes "per_process_max_thread_count") 8 threads-IsKey
          (omega arith),
      tt,
    ),
  ),
)

abbrev configuration : Configuration
configuration = configuration_of [] site [] limits

-- The configuration's file, and what is read of it.
abbrev pub file : Option Bytes
file = some (unlines (print configuration))

abbrev pub config : Fields
config = meaning_of configuration

pub is_parsed : parse_file (λ n. true) (λ t. true) file ≡ Cursor.done config
is_parsed =
    parse_file-print (λ n. true) (λ t. true) configuration
      (record {
        above = tt;
        list_key = servers-IsKey;
        servers = AreServers-map (λ t. true) (site ∷ []) site_is_written;
        below = limits_are_written;
      })

abbrev pub stat : FileCache.Stat
stat = record { mtime = pos 7; size = 5 }

abbrev pub line : RequestLine
line = record { method = codes "GET"; path = codes "/etc/a"; version = codes "HTTP/1.1" }

abbrev pub event : Event
event = record {
  fd = 9;
  accepted = none;
  client = record {
    peeked = take 16 (print_request line [] []);
    plain = record {
      incoming = record { chunks = print_request line [] [] ∷ []; ending = no_data };
      answers = wrote 500 ∷ wrote 4 ∷ wrote 1 ∷ wrote 1 ∷ wrote 1 ∷ wrote 1 ∷ [];
      opened = some (codes "hello");
    };
    secure = record {
      client_fd = 9;
      peeked = none;
      handshake = Https.done;
      incoming = record { chunks = []; ending = no_data };
      answers = [];
      mapped = none;
    };
  };
  disk = λ path. record {
    checked = some stat;
    is_open = true;
    sized = some stat;
    readable = codes "hello";
    stamped = some stat;
  };
}

pub line-IsGet : IsGet line [] event.client
unfolding program
line-IsGet = record {
  method = refl;
  line = record {
    method = ((refl, (refl, (refl, tt))), refl);
    path = ((refl, (refl, (refl, (refl, (refl, (refl, tt)))))), refl);
    version = ((refl, (refl, (refl, (refl, (refl, (refl, (refl, (refl, tt)))))))), refl);
  };
  are_fields = tt;
  body = [];
  later = [];
  peeked = refl;
  chunks = refl;
}

pub path-IsOnDisk :
    (path : Bytes) → IsOnDisk path event.disk event.client (FileCache.init (1024 * 1024 * 50))
unfolding program
path-IsOnDisk path = record {
  unheld = refl;
  room = omega arith;
  file = record {
    content = codes "hello";
    mime_type = get_mime_type path;
    last_modified = pos 7;
    file_size = 5;
    lru_it = 0;
  };
  loads = refl;
  whole = refl;
  opened = refl;
  first = wrote 500;
  answers = wrote 4 ∷ wrote 1 ∷ wrote 1 ∷ wrote 1 ∷ wrote 1 ∷ [];
  answered = refl;
  success = refl;
  progress = omega arith;
  enough = omega arith;
}
