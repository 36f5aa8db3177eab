-- ===== src/Chars/Tests.antt =====
-- Core/mstd/string.hpp on short strings.
use sok.Base.{nat_keys, suc, ◌^◌, false, [], ◌∷◌, ◌++◌, ◌≡◌, refl, length, some, ◌<◌, arith}
use sok.Base.Text.{Bytes, codes}
use sok.Chars.{
  Chars, done, invalid, ◌>>>◌, empty, of_chars, copy, assign, move, reserve, resize, at, substr,
  to_std_string,
}
use sok.Chars.Bounds.{IsValid, Returns}
use sok.Chars.Calls.{resizes, reads, writes, is_copied, run_calls, run_calls-of_chars}
use sok.Chars.Parts.{text, part_of, substr-part_of}

program : Unit {0}
unfolding of_chars copy assign move reserve resize at substr to_std_string text empty
program = tt

abbrev site : Bytes
site = codes "site"

-- A literal goes in and comes out as it was.
to_std_string-of_chars : (of_chars (site ++ 0 ∷ []) >>> to_std_string) ≡ done site
unfolding program
to_std_string-of_chars = refl

-- A string that holds nothing has no buffer to copy from, to cut, or to read.
copy-empty : copy empty ≡ invalid
unfolding program
copy-empty = refl

resize-nothing : resize 0 empty ≡ invalid
unfolding program
resize-nothing = refl

assign-moved : assign false (move empty).1 empty ≡ invalid
unfolding program
assign-moved = refl

-- What was cut off comes back when the string grows again.
resize-again :
    (of_chars (site ++ 0 ∷ []) >>> resize 2 >>> resize 4 >>> λ s. done (text s))
    ≡ done (codes "si" ++ 0 ∷ codes "e")
unfolding program
resize-again = refl

site_small : suc (length site) < 2 ^ 64
site_small = omega arith

run_calls-of_chars_example :
    Returns IsValid
      (of_chars (site ++ 0 ∷ []) >>> run_calls (resizes 6 ∷ writes 5 33 ∷ reads 9 ∷ is_copied ∷ []))
run_calls-of_chars_example =
    run_calls-of_chars site (resizes 6 ∷ writes 5 33 ∷ reads 9 ∷ is_copied ∷ []) (ground arith)
      site_small (omega arith, (tt, (tt, (tt, tt))))

abbrev site_string : Chars
site_string = record { buffer = some (site ++ 0 ∷ []); size = 4; capacity = 4 }

site_string-IsValid : IsValid site_string
site_string-IsValid = record {
  chars = site ++ 0 ∷ [];
  owned = refl;
  allocated = refl;
  fits = omega arith;
  small = omega arith;
}

substr-part_of_example :
    (substr 1 2 site_string >>> λ r. done (text r)) ≡ part_of 1 2 (text site_string)
substr-part_of_example = substr-part_of 1 2 site_string site_string-IsValid
