-- ===== src/Logger.antt =====
-- Core/utils/Logger.hpp: the lines that are logged, the file they go to, and its rotation. The clock
-- and the answers of the file system are arguments; a write to an open file does not fail.
pub mod Keeping
pub mod Lines
mod Tests
use sok.Base.{
  nat_keys, ℕ, suc, ◌+◌, ◌*◌, ◌-◌, Bool, true, false, not, ◌&&◌, List, [], ◌∷◌, ◌++◌, Option, none,
  some, if◌then◌else◌, leb, ◌==◌, length, take,
}
use sok.Base.Map.{Map, lookup, insert, erase}
use sok.Base.Text.{Bytes, bytes_keys, codes, is_empty, starts_with}
use sok.Http.Decimal.{print_ℕ}

pub data Level : Type 0 where
  info warning error : Level

-- `files` is what the file system holds under each name, `is_open` the answer of `ofs_.is_open()`.
-- `console` has the lines that were logged; the messages of `set_logfile` itself are left out.
pub record Logger : Type 0 where
  pub files : Map Bytes Bytes
  pub is_open : Bool
  pub log_filename : Bytes
  pub max_filesize : ℕ
  pub console : Bytes

abbrev pub start : Map Bytes Bytes → Logger
start files = record {
  files = files;
  is_open = false;
  log_filename = [];
  max_filesize = 10 * 1024 * 1024;
  console = [];
}

unfoldable pub set_max_filesize : ℕ → Logger → Logger
set_max_filesize bytes l = record l { max_filesize = bytes }

-- A file that is not there counts as empty.
abbrev pub or_empty : Option Bytes → Bytes
or_empty none = []
or_empty (some content) = content

abbrev pub content_of : Bytes → Map Bytes Bytes → Bytes
content_of name files = or_empty (lookup name files)

-- `ofs_.open(log_filename_, std::ios::app)`
unfoldable pub open_log : Bool → Logger → Logger
open_log opens l =
    if opens
    then record l {
      files = insert l.log_filename (content_of l.log_filename l.files) l.files;
      is_open = true;
    }
    else record l { is_open = false }

unfoldable pub set_logfile : Bytes → Bool → Logger → Logger
unfolding open_log
set_logfile filename opens l =
    let closed = record l { is_open = false; log_filename = filename } in
    if is_empty filename then closed else open_log opens closed

-- `s.rfind(p)`
abbrev pub rfind : Bytes → Bytes → Option ℕ
rfind p [] = if is_empty p then some 0 else none
rfind p (c ∷ s) = elim (rfind p s) [
  | some i ↦ some (suc i)
  | none ↦ if starts_with p (c ∷ s) then some 0 else none
]

-- The name that a full file gets.
unfoldable pub rotated_name : Bytes → Bytes → Bytes
rotated_name log_filename ts = elim (rfind (codes ".log") log_filename) [
  | none ↦ log_filename ++ codes "_" ++ ts
  | some dot ↦
      if dot == length log_filename - 4
      then take dot log_filename ++ codes "_" ++ ts ++ codes ".log"
      else log_filename ++ codes "_" ++ ts
]

-- `std::rename`, which replaces a file that has the new name.
unfoldable pub rename : Bytes → Bytes → Map Bytes Bytes → Map Bytes Bytes
rename old_name new_name files = elim (lookup old_name files) [
  | none ↦ files
  | some content ↦ insert new_name content (erase old_name files)
]

-- What the clock and the file system answer in one call.
pub record LogAnswers : Type 0 where
  pub now : Bytes
  pub now_for_filename : Bytes
  pub renames : Bool
  pub opens : Bool

unfoldable pub check_and_rotate : LogAnswers → Logger → Logger
unfolding open_log rename rotated_name
check_and_rotate a l =
    if (not (is_empty l.log_filename) && l.is_open)
      && leb l.max_filesize (length (content_of l.log_filename l.files))
    then open_log a.opens (record l {
      is_open = false;
      files =
          if a.renames
          then rename l.log_filename (rotated_name l.log_filename a.now_for_filename) l.files
          else l.files;
    })
    else l

abbrev pub level_str : Level → Bytes
level_str info = codes "INFO"
level_str warning = codes "WARN"
level_str error = codes "ERROR"

-- The call with a message only, and the one of the macros.
pub data Message : Type 0 where
  plain : Bytes → Message
  placed : Bytes → Bytes → ℕ → Message

abbrev pub log_line : Bytes → Level → Message → Bytes
log_line now level (plain msg) =
    now ++ codes " [" ++ level_str level ++ codes "] " ++ msg ++ 10 ∷ []
log_line now level (placed msg file line) =
    now
    ++ codes " ["
    ++ level_str level
    ++ codes "] ["
    ++ file
    ++ codes ":"
    ++ print_ℕ line
    ++ codes "] "
    ++ msg
    ++ 10 ∷ []

unfoldable pub write_line : Bytes → Logger → Logger
write_line line l = record l {
  files =
      if l.is_open
      then insert l.log_filename (content_of l.log_filename l.files ++ line) l.files
      else l.files;
  console = l.console ++ line;
}

unfoldable pub log : Level → Message → LogAnswers → Logger → Logger
unfolding check_and_rotate write_line
log level msg a l = write_line (log_line a.now level msg) (check_and_rotate a l)
