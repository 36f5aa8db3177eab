-- ===== src/Chars/Parts.antt =====
-- `substr` of Core/mstd/string.hpp on every branch.
use sok.Base.{
  nat_keys, ℕ, suc, ◌-◌, ◌^◌, ◌≤◌, ◌<◌, min, true, false, ◌||◌, List, [], ◌++◌, none, some,
  if◌then◌else◌, ltb, ◌==◌, length, take, drop, set, ◌≡◌, refl, ap, ◌∙◌, arith, length-take,
  length-drop, length-set, length-append, take-append_le, take_all, take-set_self, take-drop-take,
  Bool-cases, inl, inr,
}
use sok.Chars.{
  Chars, Access, done, out_of_range, invalid, ◌>>>◌, allocate, store, empty, grow, reserve, resize,
  copy_part, substr,
}
use sok.Chars.Bounds.{IsValid, length-allocate, memcpy-fits}

-- The chars of a string.
unfoldable pub text : Chars → List ℕ
text s = elim s.buffer [ none ↦ [] | some chars ↦ take s.size chars ]

-- What `substr` comes to, by the text alone.
abbrev pub part_of : ℕ → ℕ → List ℕ → Access (List ℕ)
part_of pos len t =
    if ltb (length t) pos
    then out_of_range
    else (if len == 0 || pos == length t then invalid else done (take len (drop pos t)))

resize-empty :
    (n : ℕ)
    → 1 ≤ n
    → suc n < 2 ^ 64
    → resize n empty
      ≡ done (record { buffer = some (set (allocate n) n 0); size = n; capacity = n })
unfolding resize reserve grow store empty
resize-empty n h k = ground (arith, length-allocate n k)

resize-empty_zero : resize 0 empty ≡ invalid
unfolding resize store empty
resize-empty_zero = refl

text-length : (s : Chars) (v : IsValid s) → length (text s) ≡ s.size
unfolding text
text-length s v = rw v.owned (omega (arith, length-take s.size v.chars, v.allocated, v.fits))

-- The steps of `substr` when there is something to copy.
store-done :
    (i c n m : ℕ) (chars : List ℕ)
    → i < length chars
    → store i c (record { buffer = some chars; size = n; capacity = m })
      ≡ done (record { buffer = some (set chars i c); size = n; capacity = m })
unfolding store
store-done i c n m chars h = ground arith

copy_part-done :
    (pos n size capacity : ℕ) (s : Chars) (to : List ℕ) (v : IsValid s)
    → n ≤ length to
    → n ≤ length (drop pos v.chars)
    → copy_part pos n s (record { buffer = some to; size = size; capacity = capacity })
      ≡ done (record {
        buffer = some (take n (drop pos v.chars) ++ drop n to);
        size = size;
        capacity = capacity;
      })
unfolding copy_part
copy_part-done pos n size capacity s to v h k =
    rw v.owned (rw (memcpy-fits to (drop pos v.chars) n h k).0 refl)

-- The part that is there.
substr-inside :
    (pos len : ℕ) (s : Chars)
    → IsValid s
    → pos < s.size
    → 1 ≤ len
    → (substr pos len s >>> λ r. done (text r)) ≡ done (take len (drop pos (text s)))
unfolding substr text
substr-inside pos len s v h k =
    let n : ℕ = min len (s.size - pos) in
    let to : List ℕ = set (allocate n) n 0 in
    let part : List ℕ = take n (drop pos v.chars) in
    let small : suc n < 2 ^ 64 = omega (arith, v.small, v.fits, h) in
    let room : length to ≡ suc n = length-set (allocate n) n 0 ∙ length-allocate n small in
    let there : n ≤ length (drop pos v.chars) =
      omega (arith, length-drop pos v.chars, v.allocated, v.fits) in
    let long : n < length (part ++ drop n to) = omega (
      arith,
      room,
      there,
      length-append part (drop n to),
      length-take n (drop pos v.chars),
      length-drop n to,
    ) in
    let whole : n ≤ length part = omega (arith, there, length-take n (drop pos v.chars)) in
    let inside : ltb s.size pos ≡ false = ground (arith, h) in
    rw inside (
      rw (resize-empty n (omega (arith, h, k)) small) (
        rw (copy_part-done pos n n n s to v (omega (arith, room)) there) (
          rw (store-done n 0 n n (part ++ drop n to) long) (
            rw v.owned (
              ap done (
                take-set_self n (part ++ drop n to) 0
                ∙ take-append_le n part (drop n to) whole
                ∙ take_all n part (omega (arith, length-take n (drop pos v.chars)))
                ∙ take-drop-take pos len s.size v.chars h))))))

substr-outside :
    (pos len : ℕ) (s : Chars)
    → ltb s.size pos ≡ true
    → (substr pos len s >>> λ r. done (text r)) ≡ out_of_range
unfolding substr
substr-outside pos len s h = rw h refl

substr-empty :
    (pos len : ℕ) (s : Chars)
    → ltb s.size pos ≡ false
    → min len (s.size - pos) ≡ 0
    → substr pos len s ≡ invalid
unfolding substr
substr-empty pos len s h k = rw h (rw k (rw resize-empty_zero refl))

-- On a string with a buffer `substr` throws if the part would start behind the end. It takes the part
-- that is there if that holds a char, and where the part is empty, at the end or of length 0, it
-- writes through a null pointer.
pub substr-part_of :
    (pos len : ℕ) (s : Chars)
    → IsValid s
    → (substr pos len s >>> λ r. done (text r)) ≡ part_of pos len (text s)
substr-part_of pos len s v = rw (text-length s v) (elim (Bool-cases (ltb s.size pos)) [
  | inl outside ↦ rw outside (substr-outside pos len s outside)
  | inr inside ↦ elim (Bool-cases (len == 0 || pos == s.size)) [
    | inl nothing ↦
        rw inside (rw nothing (rw (substr-empty pos len s inside (ground (arith, nothing))) refl))
    | inr something ↦
        let h : (pos < s.size) × (1 ≤ len) = ground (arith, something, inside) in
        rw inside (rw something (substr-inside pos len s v h.0 h.1))
  ]
])
