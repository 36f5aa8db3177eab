-- ===== src/Chars/Calls.antt =====
-- Core/mstd/string.hpp stays inside its buffer, once it has one, whatever is called.
use sok.Base.{
  nat_keys, ℕ, zero, suc, ◌^◌, ◌<◌, List, [], ◌∷◌, ◌++◌, some, leb, length, get_elem?, ◌≡◌, refl,
  arith, Bool-cases, inl, inr,
}
use sok.Base.Text.{Bytes, Lacks}
use sok.Chars.{
  Chars, Access, done, out_of_range, invalid, ◌>>>◌, load, copy, of_chars, reserve, resize, at,
  put_char,
}
use sok.Chars.Bounds.{
  IsValid, Returns, store-IsValid, copy-IsValid, reserve-IsValid, resize-IsValid, of_chars-IsValid,
}

-- What a caller may do with a string; it catches what `operator[]` throws.
pub data Call : Type 0 where
  reserves resizes reads : ℕ → Call
  writes : ℕ → ℕ → Call
  is_copied : Call

abbrev pub run_call : Call → Chars → Access Chars
run_call (reserves n) s = reserve n s
run_call (resizes n) s = resize n s
run_call (reads i) s = at i s >>> λ c. done s
run_call (writes i c) s = put_char i c s
run_call is_copied s = copy s

abbrev pub catch : Chars → Access Chars → Access Chars
catch s (done r) = done r
catch s out_of_range = done s
catch s invalid = invalid

abbrev pub run_calls : List Call → Chars → Access Chars
run_calls [] s = done s
run_calls (c ∷ calls) s = catch s (run_call c s) >>> run_calls calls

-- No call asks for as many chars as `size_t` can count.
abbrev pub IsSmall : Call → Type 0
IsSmall (reserves n) = suc n < 2 ^ 64
IsSmall (resizes n) = suc n < 2 ^ 64
IsSmall _ = Unit {0}

abbrev pub AreSmall : List Call → Type 0
AreSmall [] = Unit {0}
AreSmall (c ∷ calls) = IsSmall c × AreSmall calls

get_elem?-lt : (xs : List ℕ) (i : ℕ) → i < length xs → (a : ℕ) × (get_elem? xs i ≡ some a)
get_elem?-lt [] i h = absurd (omega (arith, h))
get_elem?-lt (x ∷ xs) zero h = (x, refl)
get_elem?-lt (x ∷ xs) (suc i) h = get_elem?-lt xs i (omega (arith, h))

call-IsValid :
    (c : Call) (s : Chars) → IsSmall c → IsValid s → Returns IsValid (catch s (run_call c s))
unfolding at put_char load
call-IsValid (reserves n) s h v =
    let (r, eq, (w, _)) = reserve-IsValid n s v h in (r, rw eq refl, w)
call-IsValid (resizes n) s h v = let (r, eq, w) = resize-IsValid n s v h in (r, rw eq refl, w)
call-IsValid (reads i) s h v = elim (Bool-cases (leb s.size i)) [
  | inl outside ↦ (s, rw outside refl, v)
  | inr inside ↦
      let (c, eq) = get_elem?-lt v.chars i (ground (arith, inside, v.fits, v.allocated)) in
      (s, rw inside (rw v.owned (rw eq refl)), v)
]
call-IsValid (writes i c) s h v = elim (Bool-cases (leb s.size i)) [
  | inl outside ↦ (s, rw outside refl, v)
  | inr inside ↦
      let (r, eq, w) = store-IsValid i c s v (ground (arith, inside, v.fits)) in
      (r, rw inside (rw eq refl), w)
]
call-IsValid is_copied s h v = let (r, eq, w) = copy-IsValid s v in (r, rw eq refl, w)

pub run_calls-IsValid :
    (calls : List Call) (s : Chars)
    → AreSmall calls
    → IsValid s
    → Returns IsValid (run_calls calls s)
run_calls-IsValid [] s h v = (s, refl, v)
run_calls-IsValid (c ∷ calls) s h v =
    let (r, eq, w) = call-IsValid c s h.0 v in rw eq (run_calls-IsValid calls r h.1 w)

-- A string from a literal stays inside its buffer: whatever is reserved, resized, copied, read and
-- written through `operator[]`, at whatever places, no call reads or writes outside it, and the
-- string that is left has room for its size and the NUL behind it; if no call asks for 2^64 - 1 chars.
pub run_calls-of_chars :
    (text : Bytes) (calls : List Call)
    → Lacks 0 text
    → suc (length text) < 2 ^ 64
    → AreSmall calls
    → Returns IsValid (of_chars (text ++ 0 ∷ []) >>> run_calls calls)
run_calls-of_chars text calls h small k =
    let (s, eq, v) = of_chars-IsValid text h small in rw eq (run_calls-IsValid calls s k v)
