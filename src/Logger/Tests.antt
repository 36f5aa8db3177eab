-- ===== src/Logger/Tests.antt =====
-- Core/utils/Logger.hpp with a file that is full at once.
use sok.Base.{nat_keys, true, List, [], ◌∷◌, ◌++◌, ◌≡◌, refl}
use sok.Base.Text.{Bytes, bytes_keys, codes}
use sok.Logger.{
  info, warning, Logger, set_max_filesize, set_logfile, content_of, rotated_name, open_log, rename,
  LogAnswers, check_and_rotate, plain, placed, write_line, log,
}
use sok.Logger.Keeping.{contents}
use sok.Logger.Lines.{Entry, log_all, logged, set_up, log_all-logged}

program : Unit {0}
unfolding set_logfile set_max_filesize rotated_name open_log rename check_and_rotate write_line log
program = tt

rotated_name-log : rotated_name (codes "server.log") (codes "1") ≡ codes "server_1.log"
unfolding program
rotated_name-log = refl

rotated_name-other : rotated_name (codes "a.log.old") (codes "1") ≡ codes "a.log.old_1"
unfolding program
rotated_name-other = refl

abbrev at : Bytes → LogAnswers
at ts = record { now = ts; now_for_filename = ts; renames = true; opens = true }

-- Two rotations to the same name: the second replaces the first one's file.
abbrev full : Logger
full = set_up 1 (codes "s.log") []

log-twice :
    content_of
      (codes "s_1.log")
      (log info (plain (codes "c")) (at (codes "1")) (
        log info
          (plain (codes "b"))
          (at (codes "1"))
          (log info (plain (codes "a")) (at (codes "1")) full))).files
    ≡ codes "1 [INFO] b" ++ 10 ∷ []
unfolding program
log-twice = refl

abbrev entries : List Entry
entries =
    record { level = warning; msg = placed (codes "m") (codes "f") 3; answers = at (codes "1") }
    ∷ record { level = info; msg = plain (codes "n"); answers = at (codes "2") }
    ∷ []

log_all-logged_example :
    (rotated : List Bytes) × (let l = log_all entries (set_up 4 (codes "s.log") []) in
      (l.log_filename ≡ codes "s.log")
      × (contents rotated l.files ++ content_of l.log_filename l.files ≡ [] ++ logged entries))
unfolding program
log_all-logged_example =
    log_all-logged 4 (codes "s.log") [] entries refl ((refl, refl), ((refl, refl), tt))
