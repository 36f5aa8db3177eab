-- ===== src/Logger/Keeping.antt =====
-- The files of Core/utils/Logger.hpp, when the log file is written and when it is rotated.
use sok.Base.{
  nat_keys, List, [], ◌∷◌, ◌++◌, none, some, ◌≡◌, ◌≢◌, refl, sym, ap, ◌∙◌, arith, append_assoc,
  append-nil,
}
use sok.Base.Map.{
  Map, lookup, insert, erase, lookup-insert_self, lookup-insert_ne, lookup-erase_self,
  lookup-erase_ne,
}
use sok.Base.Text.{Bytes, bytes_keys}
use sok.Logger.{or_empty, content_of}

-- The contents of files, one after the other.
abbrev pub contents : List Bytes → Map Bytes Bytes → Bytes
contents [] files = []
contents (name ∷ names) files = content_of name files ++ contents names files

-- The files that were rotated are still there, and none of them is the log file.
abbrev pub AreKept : Bytes → List Bytes → Map Bytes Bytes → Type 0
AreKept log_filename [] files = Unit {0}
AreKept log_filename (name ∷ names) files =
    (name ≢ log_filename) × (lookup name files ≢ none) × AreKept log_filename names files

-- Together the rotated files and the log file hold `text`.
pub record Has (rotated : List Bytes) (text log_filename : Bytes) (files : Map Bytes Bytes)
    : Type 0 where
  pub there : lookup log_filename files ≢ none
  pub kept : AreKept log_filename rotated files
  pub whole : contents rotated files ++ content_of log_filename files ≡ text

-- Files that keep what they have.
pub frame :
    (log_filename : Bytes) (names : List Bytes) (files files' : Map Bytes Bytes)
    → ((name : Bytes)
        → name ≢ log_filename
        → lookup name files ≢ none
        → lookup name files' ≡ lookup name files)
    → AreKept log_filename names files
    → AreKept log_filename names files' × (contents names files' ≡ contents names files)
frame log_filename [] files files' f k = (tt, refl)
frame log_filename (name ∷ names) files files' f (ne, held, k) =
    let (k', same) = frame log_filename names files files' f k in
    let still = f name ne held in
    (
      (ne, (λ gone. held (sym still ∙ gone)), k'),
      ap (λ c. c ++ contents names files') (ap or_empty still)
          ∙ ap (λ cs. content_of name files ++ cs) same,
    )

-- A write to the log file.
pub insert-Has :
    (content text text' log_filename : Bytes) (rotated : List Bytes) (files : Map Bytes Bytes)
    → Has rotated text log_filename files
    → contents rotated files ++ content ≡ text'
    → Has rotated text' log_filename (insert log_filename content files)
insert-Has content text text' log_filename rotated files v e =
    let (k, same) =
      frame log_filename rotated files (insert log_filename content files)
        (λ name ne held. lookup-insert_ne log_filename name content files (λ h. ne (sym h)))
        v.kept in
    let now = lookup-insert_self log_filename content files in
    record {
      there = λ gone. absurd (ground (arith, now, gone));
      kept = k;
      whole =
          ap (λ c. contents rotated (insert log_filename content files) ++ c) (ap or_empty now)
          ∙ ap (λ cs. cs ++ content) same
          ∙ e;
    }

kept-append :
    (log_filename new : Bytes) (names : List Bytes) (files : Map Bytes Bytes)
    → AreKept log_filename names files
    → new ≢ log_filename
    → lookup new files ≢ none
    → AreKept log_filename (names ++ new ∷ []) files
kept-append log_filename new [] files k ne held = (ne, held, tt)
kept-append log_filename new (name ∷ names) files (a, b, k) ne held =
    (a, b, kept-append log_filename new names files k ne held)

contents-append :
    (new : Bytes) (names : List Bytes) (files : Map Bytes Bytes)
    → contents (names ++ new ∷ []) files ≡ contents names files ++ content_of new files
contents-append new [] files = append-nil (content_of new files)
contents-append new (name ∷ names) files =
    ap (λ cs. content_of name files ++ cs) (contents-append new names files)
    ∙ sym (append_assoc (content_of name files) (contents names files) (content_of new files))

-- A rotation, to a name that no file has.
pub moved-Has :
    (new content text log_filename : Bytes) (rotated : List Bytes) (files : Map Bytes Bytes)
    → Has rotated text log_filename files
    → lookup new files ≡ none
    → lookup log_filename files ≡ some content
    → (content_of log_filename (insert new content (erase log_filename files)) ≡ [])
      × Has
          (rotated ++ new ∷ [])
          text
          log_filename
          (insert log_filename [] (insert new content (erase log_filename files)))
moved-Has new content text log_filename rotated files v fresh found =
    let moved : Map Bytes Bytes = insert new content (erase log_filename files) in
    let final : Map Bytes Bytes = insert log_filename [] moved in
    let ne : new ≢ log_filename = λ e. v.there (ap (λ q. lookup q files) (sym e) ∙ fresh) in
    let ne' : log_filename ≢ new = λ e. ne (sym e) in
    let gone =
      lookup-insert_ne new log_filename content (erase log_filename files) ne
      ∙ lookup-erase_self log_filename files in
    let log_now : lookup log_filename final ≡ some [] = lookup-insert_self log_filename [] moved in
    let new_now : lookup new final ≡ some content =
      lookup-insert_ne log_filename new [] moved ne'
      ∙ lookup-insert_self new content (erase log_filename files) in
    let (k, same) =
      frame log_filename rotated files final
        (λ name other held.
          lookup-insert_ne log_filename name [] moved (λ h. other (sym h))
          ∙ lookup-insert_ne new name content (erase log_filename files)
              (λ h. held (ap (λ q. lookup q files) (sym h) ∙ fresh))
          ∙ lookup-erase_ne log_filename name files (λ h. other (sym h)))
        v.kept in
    (
      ap or_empty gone,
      record {
        there = λ none_there. absurd (ground (arith, log_now, none_there));
        kept =
            kept-append log_filename new rotated final k ne
              (λ none_there. absurd (ground (arith, new_now, none_there)));
        whole =
            ap (λ c. contents (rotated ++ new ∷ []) final ++ c) (ap or_empty log_now)
            ∙ append-nil (contents (rotated ++ new ∷ []) final)
            ∙ contents-append new rotated final
            ∙ ap (λ c. contents rotated final ++ c) (ap or_empty new_now)
            ∙ ap (λ cs. cs ++ content) same
            ∙ ap (λ c. contents rotated files ++ c) (ap or_empty (sym found))
            ∙ v.whole;
      },
    )
