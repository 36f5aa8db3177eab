-- ===== src/Yaml/Numerals.antt =====
-- Decimal numerals as values of Core/mstd/yaml.hpp.
use sok.Base.{
  nat_keys, ℕ, zero, suc, ◌+◌, ◌^◌, ◌/◌, ◌%◌, ◌<◌, Bool, true, false, [], ◌∷◌, none, ◌==◌, ◌≡◌,
  refl, arith, lt→ltb,
}
use sok.Base.Int.{pos}
use sok.Base.Text.{Bytes, bytes_keys, codes, is_empty, Lacks}
use sok.Http.Decimal.{print_ℕ, print_before, value_from-print_ℕ, Digits, print_ℕ-Digits}
use sok.Yaml.{int}
use sok.Yaml.Lines.{trim_back, is_white, consists_of, is_digit}
use sok.Yaml.Cursor.{done, scalar, stoi, inner}
use sok.Yaml.Print.{Entry, IsKey, IsEntry}
use sok.Yaml.Trimming.{IsTrimmed, StartsBlack}

trim_back-Digits : (s : Bytes) → Digits s → trim_back s ≡ s
unfolding trim_back is_white
trim_back-Digits [] h = refl
trim_back-Digits (c ∷ s) h = ground (arith, trim_back-Digits s h.2)

is_empty-print_before :
    (rounds n d : ℕ) (later : Bytes) → is_empty (print_before rounds n (d ∷ later)) ≡ false
unfolding print_before
is_empty-print_before zero n d later = refl
is_empty-print_before (suc rounds) n d later =
    ground (arith, is_empty-print_before rounds (n / 10) (b'0' + n % 10) (d ∷ later))

is_empty-print_ℕ : (n : ℕ) → is_empty (print_ℕ n) ≡ false
unfolding print_ℕ print_before
is_empty-print_ℕ n = ground (arith, is_empty-print_before n (n / 10) (b'0' + n % 10) [])

Digits-StartsBlack : (s : Bytes) → is_empty s ≡ false → Digits s → StartsBlack s
unfolding is_white
Digits-StartsBlack [] e h = cc
Digits-StartsBlack (c ∷ s) e h = ground arith

pub print_ℕ-IsTrimmed : (n : ℕ) → IsTrimmed (print_ℕ n)
print_ℕ-IsTrimmed n = record {
  front = Digits-StartsBlack (print_ℕ n) (is_empty-print_ℕ n) (print_ℕ-Digits n);
  back = trim_back-Digits (print_ℕ n) (print_ℕ-Digits n);
}

Digits-consists_of : (s : Bytes) → Digits s → consists_of is_digit s ≡ true
unfolding consists_of is_digit
Digits-consists_of [] h = refl
Digits-consists_of (c ∷ s) h = ground (arith, Digits-consists_of s h.2)

pub Digits-Lacks : (s : Bytes) → Digits s → Lacks 10 s
Digits-Lacks [] h = tt
Digits-Lacks (c ∷ s) h = (ground arith, Digits-Lacks s h.2)

pub Digits-no_list : (s : Bytes) → Digits s → inner s ≡ none
unfolding inner
Digits-no_list [] h = refl
Digits-no_list (c ∷ s) h = ground arith

Digits-no_truth :
    (s : Bytes) → Digits s → ((s == codes "true") ≡ false) × ((s == codes "false") ≡ false)
Digits-no_truth [] h = (refl, refl)
Digits-no_truth (c ∷ s) h = (ground arith, ground arith)

-- A number that is written is read as this number, if it fits in an `int`.
pub scalar-print_ℕ :
    (stod : Bytes → Bool) (n : ℕ) → n < 2 ^ 31 → scalar stod (print_ℕ n) ≡ done (int (pos n))
unfolding scalar stoi
scalar-print_ℕ stod n h =
    let (no_true, no_false) = Digits-no_truth (print_ℕ n) (print_ℕ-Digits n) in
    rw (
      no_true,
      no_false,
      Digits-consists_of (print_ℕ n) (print_ℕ-Digits n),
      value_from-print_ℕ n,
      lt→ltb n (2 ^ 31) h,
    )

-- A number under a key.
abbrev pub number : Bytes → ℕ → Entry
number key n = record { key = key; value = print_ℕ n; meaning = int (pos n) }

pub number-IsEntry :
    (stod : Bytes → Bool) (key : Bytes) (n : ℕ)
    → IsKey key
    → n < 2 ^ 31
    → IsEntry stod (number key n)
number-IsEntry stod key n is_key fits = record {
  is_key = is_key;
  trimmed = print_ℕ-IsTrimmed n;
  one_line = Digits-Lacks (print_ℕ n) (print_ℕ-Digits n);
  no_list = Digits-no_list (print_ℕ n) (print_ℕ-Digits n);
  means = scalar-print_ℕ stod n fits;
}
