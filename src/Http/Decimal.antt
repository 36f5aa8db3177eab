-- ===== src/Http/Decimal.antt =====
-- Numbers as `std::ostream` and `std::to_string` print them.
use sok.Base.{
  ℕ, zero, suc, ◌+◌, ◌-◌, ◌*◌, ◌/◌, ◌%◌, ◌<◌, ◌≤◌, true, false, [], ◌∷◌, ◌≡◌, arith, ltb,
  Bool-cases, inl, inr, ap, ◌∙◌,
}
use sok.Base.Text.{Bytes}

-- The digits before `later`; the first argument bounds their number.
unfoldable pub print_before : ℕ → ℕ → Bytes → Bytes
print_before zero n later = later
print_before (suc rounds) n later = elim (ltb n 10) [
  | true ↦ (b'0' + n) ∷ later
  | false ↦ print_before rounds (n / 10) ((b'0' + n % 10) ∷ later)
]

-- A number has fewer digits than its value plus one.
unfoldable pub print_ℕ : ℕ → Bytes
unfolding print_before
print_ℕ n = print_before (suc n) n []

-- The value of a run of digits, continued from `acc`.
unfoldable pub value_from : ℕ → Bytes → ℕ
value_from acc [] = acc
value_from acc (d ∷ ds) = value_from (acc * 10 + (d - b'0')) ds

print_before-value :
    (rounds n : ℕ) (later : Bytes)
    → n < rounds
    → value_from 0 (print_before rounds n later) ≡ value_from n later
unfolding print_before value_from
print_before-value zero n later h = elim h [ ]
print_before-value (suc rounds) n later h = elim (Bool-cases (ltb n 10)) [
  | inl small ↦ rw (small, print_before) (ap (λ a. value_from a later) (omega arith))
  | inr large ↦
      rw (large, print_before)
        (print_before-value rounds (n / 10) ((b'0' + n % 10) ∷ later) (ground arith)
          ∙ ap (λ a. value_from a later) (omega arith))
]

-- What is printed stands for the number.
pub value_from-print_ℕ : (n : ℕ) → value_from 0 (print_ℕ n) ≡ n
unfolding print_ℕ value_from
value_from-print_ℕ n = print_before-value (suc n) n [] (omega arith)

-- Every byte is a digit.
abbrev pub Digits : Bytes → Type 0
Digits [] = Unit {0}
Digits (d ∷ ds) = (b'0' ≤ d) × (d ≤ b'9') × Digits ds

print_before-Digits :
    (rounds n : ℕ) (later : Bytes) → Digits later → Digits (print_before rounds n later)
unfolding print_before
print_before-Digits zero n later h = h
print_before-Digits (suc rounds) n later h = elim (Bool-cases (ltb n 10)) [
  | inl small ↦ rw (small, print_before) (omega arith, ground arith, h)
  | inr large ↦
      rw (large, print_before) (print_before-Digits rounds (n / 10) _ (omega arith, omega arith, h))
]

pub print_ℕ-Digits : (n : ℕ) → Digits (print_ℕ n)
unfolding print_ℕ
print_ℕ-Digits n = print_before-Digits (suc n) n [] tt
