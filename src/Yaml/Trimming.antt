-- ===== src/Yaml/Trimming.antt =====
-- What the text operations of Core/mstd/yaml.hpp make of the lines of a written file.
use sok.Base.{
  nat_keys, ℕ, zero, suc, false, List, [], ◌∷◌, ◌++◌, ◌≡◌, refl, sym, ap, ◌∙◌, arith, replicate,
  append_assoc,
}
use sok.Base.Text.{Bytes, is_empty, Lacks}
use sok.Yaml.Lines.{lines, is_white, trim_front, trim_back, trim, count_indent}

-- The text has a first character, and it is not white.
abbrev pub StartsBlack : Bytes → Type 0
StartsBlack [] = ⊥
StartsBlack (c ∷ cs) = is_white c ≡ false

-- Neither end is white.
pub record IsTrimmed (s : Bytes) : Type 0 where
  pub front : StartsBlack s
  pub back : trim_back s ≡ s

trim_front-StartsBlack : (s : Bytes) → StartsBlack s → trim_front s ≡ s
unfolding trim_front
trim_front-StartsBlack [] h = elim h [ ]
trim_front-StartsBlack (c ∷ cs) h = rw (h, trim_front)

pub trim-IsTrimmed : (s : Bytes) → IsTrimmed s → trim s ≡ s
unfolding trim
trim-IsTrimmed s h = ap trim_back (trim_front-StartsBlack s h.front) ∙ h.back

pub trim-replicate : (n : ℕ) (s : Bytes) → trim (replicate n 32 ++ s) ≡ trim s
unfolding trim trim_front is_white
trim-replicate zero s = refl
trim-replicate (suc n) s = trim-replicate n s

pub count_indent-replicate :
    (n : ℕ) (s : Bytes) → StartsBlack s → count_indent (replicate n 32 ++ s) ≡ n
unfolding count_indent is_white
count_indent-replicate zero [] h = elim h [ ]
count_indent-replicate zero (c ∷ s) h = ground arith
count_indent-replicate (suc n) s h = ap suc (count_indent-replicate n s h)

is_empty-append : (s t : Bytes) → StartsBlack t → is_empty (s ++ t) ≡ false
is_empty-append [] [] h = elim h [ ]
is_empty-append [] (c ∷ t) h = refl
is_empty-append (d ∷ s) t h = refl

trim_back-append : (s t : Bytes) → IsTrimmed t → trim_back (s ++ t) ≡ s ++ t
unfolding trim_back
trim_back-append [] t h = h.back
trim_back-append (c ∷ s) t h = ground (arith, trim_back-append s t h, is_empty-append s t h.front)

-- A text between two others that are trimmed stays, whatever it is.
pub append-IsTrimmed :
    (s t : Bytes) → IsTrimmed s → IsTrimmed t → (u : Bytes) → IsTrimmed (s ++ (u ++ t))
append-IsTrimmed [] t hs ht u = elim hs.front [ ]
append-IsTrimmed (c ∷ s) t hs ht u = record {
  front = hs.front;
  back =
      ap trim_back (sym (append_assoc (c ∷ s) u t))
      ∙ trim_back-append ((c ∷ s) ++ u) t ht
      ∙ append_assoc (c ∷ s) u t;
}

-- Each line with its newline.
abbrev pub unlines : List Bytes → Bytes
unlines [] = []
unlines (l ∷ ls) = l ++ 10 ∷ unlines ls

abbrev pub AllLack : ℕ → List Bytes → Type 0
AllLack c [] = Unit {0}
AllLack c (l ∷ ls) = Lacks c l × AllLack c ls

lines-append : (l rest : Bytes) → Lacks 10 l → lines (l ++ 10 ∷ rest) ≡ l ∷ lines rest
unfolding lines
lines-append [] rest h = refl
lines-append (c ∷ l) rest h = ground (arith, lines-append l rest h.1)

pub lines-unlines : (ls : List Bytes) → AllLack 10 ls → lines (unlines ls) ≡ ls
unfolding lines
lines-unlines [] h = refl
lines-unlines (l ∷ ls) h = lines-append l (unlines ls) h.0 ∙ ap (◌∷◌ l) (lines-unlines ls h.1)
