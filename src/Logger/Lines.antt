-- ===== src/Logger/Lines.antt =====
-- Core/utils/Logger.hpp loses no line when it rotates its file.
use sok.Base.{
  nat_keys, ℕ, true, false, List, [], ◌∷◌, ◌++◌, none, some, leb, length, ◌≡◌, refl, sym, ap, ◌∙◌,
  arith, append_assoc, append-nil, Bool-cases, Option-cases, inl, inr,
}
use sok.Base.Map.{Map, lookup, insert, erase, lookup-insert_self}
use sok.Base.Text.{Bytes, bytes_keys, is_empty}
use sok.Logger.{
  Level, Logger, start, set_max_filesize, set_logfile, or_empty, content_of, open_log, rotated_name,
  rename, LogAnswers, check_and_rotate, Message, log_line, write_line, log,
}
use sok.Logger.Keeping.{contents, Has, insert-Has, moved-Has}

-- The log file is open and, with the rotated ones, holds `text`.
pub record IsLogging (rotated : List Bytes) (text : Bytes) (l : Logger) : Type 0 where
  pub named : is_empty l.log_filename ≡ false
  pub opened : l.is_open ≡ true
  pub has : Has rotated text l.log_filename l.files

-- In a call the log file can be opened, and no file has the name of the rotated one.
abbrev pub IsFit : LogAnswers → Logger → Type 0
IsFit a l =
    (a.opens ≡ true) × (lookup (rotated_name l.log_filename a.now_for_filename) l.files ≡ none)

-- The state of the logger after a call.
abbrev pub Goes : Bytes → Logger → Logger → Type 0
Goes text l l' =
    (rotated : List Bytes) × IsLogging rotated text l' × (l'.log_filename ≡ l.log_filename)

rename-found :
    (old_name new_name content : Bytes) (files : Map Bytes Bytes)
    → lookup old_name files ≡ some content
    → rename old_name new_name files ≡ insert new_name content (erase old_name files)
unfolding rename
rename-found old_name new_name content files found = cc

rotate-Goes :
    (a : LogAnswers) (text : Bytes) (rotated : List Bytes) (l : Logger)
    → IsFit a l
    → IsLogging rotated text l
    → Goes text l (check_and_rotate a l)
unfolding check_and_rotate open_log
rotate-Goes a text rotated l (opens, fresh) v =
    let name : Bytes = l.log_filename in
    let new : Bytes = rotated_name name a.now_for_filename in
    elim (Bool-cases (leb l.max_filesize (length (content_of name l.files)))) [
      | inr room ↦
          let same : check_and_rotate a l ≡ l = rw v.named (rw v.opened (rw room refl)) in
          rw same (rotated, v, refl)
      | inl full ↦ elim (Bool-cases a.renames) [
        | inr stays ↦
            let files : Map Bytes Bytes = insert name (content_of name l.files) l.files in
            let same : check_and_rotate a l ≡ record l { files = files; is_open = true } =
              rw v.named (rw v.opened (rw full (rw opens (rw stays refl)))) in
            rw same (
              rotated,
              record {
                named = v.named;
                opened = refl;
                has =
                    insert-Has (content_of name l.files) text text name rotated l.files v.has
                      v.has.whole;
              },
              refl,
            )
        | inl moves ↦ elim (Option-cases (lookup name l.files)) [
          | inl gone ↦ absurd (v.has.there gone)
          | inr (content, found) ↦
              let (emptied, has) =
                moved-Has new content text name rotated l.files v.has fresh found in
              let files : Map Bytes Bytes =
                insert name [] (insert new content (erase name l.files)) in
              let same : check_and_rotate a l ≡ record l { files = files; is_open = true } =
                rw v.named (
                  rw v.opened (
                    rw full (
                      rw opens (
                        rw moves (
                          rw (rename-found name new content l.files found) (rw emptied refl)))))) in
              rw same
                (rotated ++ new ∷ [], record { named = v.named; opened = refl; has = has }, refl)
        ]
      ]
    ]

write_line-Goes :
    (line text : Bytes) (rotated : List Bytes) (l : Logger)
    → IsLogging rotated text l
    → Goes (text ++ line) l (write_line line l)
unfolding write_line
write_line-Goes line text rotated l v =
    let name : Bytes = l.log_filename in
    let old : Bytes = content_of name l.files in
    let written : Logger = record l {
      files = insert name (old ++ line) l.files;
      console = l.console ++ line;
    } in
    let same : write_line line l ≡ written = rw v.opened refl in
    rw same (
      rotated,
      record {
        named = v.named;
        opened = v.opened;
        has = insert-Has (old ++ line) text (text ++ line) name rotated l.files v.has (
            sym (append_assoc (contents rotated l.files) old line)
            ∙ ap (λ t. t ++ line) v.has.whole);
      },
      refl,
    )

-- The calls of `log`, and what each of them adds.
pub record Entry : Type 0 where
  pub level : Level
  pub msg : Message
  pub answers : LogAnswers

abbrev pub log_all : List Entry → Logger → Logger
log_all [] l = l
log_all (e ∷ entries) l = log_all entries (log e.level e.msg e.answers l)

abbrev pub logged : List Entry → Bytes
logged [] = []
logged (e ∷ entries) = log_line e.answers.now e.level e.msg ++ logged entries

abbrev pub AreFit : List Entry → Logger → Type 0
AreFit [] l = Unit {0}
AreFit (e ∷ entries) l = IsFit e.answers l × AreFit entries (log e.level e.msg e.answers l)

log-Goes :
    (e : Entry) (text : Bytes) (rotated : List Bytes) (l : Logger)
    → IsFit e.answers l
    → IsLogging rotated text l
    → Goes (text ++ log_line e.answers.now e.level e.msg) l (log e.level e.msg e.answers l)
unfolding log
log-Goes e text rotated l fit v =
    let (between, v', same) = rotate-Goes e.answers text rotated l fit v in
    let (behind, v'', same') =
      write_line-Goes (log_line e.answers.now e.level e.msg) text between
        (check_and_rotate e.answers l) v' in
    (behind, v'', same' ∙ same)

log_all-Goes :
    (entries : List Entry) (text : Bytes) (rotated : List Bytes) (l : Logger)
    → AreFit entries l
    → IsLogging rotated text l
    → Goes (text ++ logged entries) l (log_all entries l)
log_all-Goes [] text rotated l fit v = rw (append-nil text) (rotated, v, refl)
log_all-Goes (e ∷ entries) text rotated l (fit, fits) v =
    let line : Bytes = log_line e.answers.now e.level e.msg in
    let (between, v', same) = log-Goes e text rotated l fit v in
    let (behind, v'', same') =
      log_all-Goes entries (text ++ line) between (log e.level e.msg e.answers l) fits v' in
    rw⁻¹ (append_assoc text line (logged entries)) (behind, v'', same' ∙ same)

set_logfile-IsLogging :
    (filename : Bytes) (files : Map Bytes Bytes)
    → is_empty filename ≡ false
    → IsLogging [] (content_of filename files) (set_logfile filename true (start files))
unfolding set_logfile open_log
set_logfile-IsLogging filename files h =
    let now = lookup-insert_self filename (content_of filename files) files in
    rw h (record {
      named = h;
      opened = refl;
      has = record {
        there = λ gone. absurd (ground (arith, now, gone));
        kept = tt;
        whole = ap or_empty now;
      };
    })

set_logfile-log_filename :
    (filename : Bytes) (files : Map Bytes Bytes)
    → is_empty filename ≡ false
    → (set_logfile filename true (start files)).log_filename ≡ filename
unfolding set_logfile open_log
set_logfile-log_filename filename files h = rw h refl

-- A logger that writes to a file of this name.
abbrev pub set_up : ℕ → Bytes → Map Bytes Bytes → Logger
set_up bytes filename files = set_max_filesize bytes (set_logfile filename true (start files))

set_up-IsLogging :
    (bytes : ℕ) (filename : Bytes) (files : Map Bytes Bytes)
    → is_empty filename ≡ false
    → IsLogging [] (content_of filename files) (set_up bytes filename files)
      × ((set_up bytes filename files).log_filename ≡ filename)
unfolding set_max_filesize
set_up-IsLogging bytes filename files h =
    let v = set_logfile-IsLogging filename files h in
    (
      record { named = v.named; opened = v.opened; has = v.has },
      set_logfile-log_filename filename files h,
    )

-- No line is lost: when lines have been logged to a file that could be opened, each time, the files
-- to which it was rotated and the file itself hold, one after the other, what the file held before
-- and then the lines in their order; if no file had the name of a rotated one before the rotation.
pub log_all-logged :
    (bytes : ℕ) (filename : Bytes) (files : Map Bytes Bytes) (entries : List Entry)
    → is_empty filename ≡ false
    → AreFit entries (set_up bytes filename files)
    → (rotated : List Bytes) × (let l = log_all entries (set_up bytes filename files) in
        (l.log_filename ≡ filename)
        × (contents rotated l.files ++ content_of l.log_filename l.files
            ≡ content_of filename files ++ logged entries))
log_all-logged bytes filename files entries h fit =
    let (v, named) = set_up-IsLogging bytes filename files h in
    let (rotated, w, same) =
      log_all-Goes entries (content_of filename files) [] (set_up bytes filename files) fit v in
    (rotated, (same ∙ named, w.has.whole))
