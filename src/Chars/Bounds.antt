-- ===== src/Chars/Bounds.antt =====
-- Core/mstd/string.hpp stays inside its buffer, once it has one.
use sok.Base.{
  nat_keys, ℕ, suc, ◌%◌, ◌^◌, ◌≤◌, ◌<◌, List, [], ◌∷◌, ◌++◌, some, if◌then◌else◌, ltb, ltb→le,
  length, take, drop, set, ◌≡◌, refl, ◌∙◌, arith, length-append, length-take, length-drop,
  length-replicate, length-set, Bool-cases, inl, inr,
}
use sok.Base.Text.{Bytes, Lacks}
use sok.Chars.{
  Chars, Access, done, allocate, memcpy, store, copy, strlen, of_chars, grow, reserve, resize,
}

-- The string has a buffer of `capacity + 1` chars, and its size and the NUL behind it fit in.
pub record IsValid (s : Chars) : Type 0 where
  pub chars : List ℕ
  pub owned : s.buffer ≡ some chars
  pub allocated : length chars ≡ suc s.capacity
  pub fits : s.size ≤ s.capacity
  pub small : suc s.capacity < 2 ^ 64

-- The call is done, with `Q` of what it returns.
abbrev pub Returns : (Chars → Type 0) → Access Chars → Type 0
Returns Q a = (r : Chars) × (a ≡ done r) × Q r

pub length-allocate : (n : ℕ) → suc n < 2 ^ 64 → length (allocate n) ≡ suc n
unfolding allocate
length-allocate n h = length-replicate (suc n % 2 ^ 64) 0 ∙ omega (arith, h)

-- What is copied stands in front of what the target had behind it.
pub memcpy-fits :
    (to from : List ℕ) (n : ℕ)
    → n ≤ length to
    → n ≤ length from
    → (memcpy to from n ≡ done (take n from ++ drop n to))
      × (length (take n from ++ drop n to) ≡ length to)
unfolding memcpy
memcpy-fits to from n h k = (
  ground arith,
  length-append (take n from) (drop n to)
      ∙ omega (arith, h, k, length-take n from, length-drop n to),
)

pub store-IsValid :
    (i c : ℕ) (s : Chars) → IsValid s → i ≤ s.capacity → Returns IsValid (store i c s)
unfolding store
store-IsValid i c s v h = (
  record s { buffer = some (set v.chars i c) },
  rw v.owned (ground (arith, v.allocated)),
  record {
    chars = set v.chars i c;
    owned = refl;
    allocated = length-set v.chars i c ∙ v.allocated;
    fits = v.fits;
    small = v.small;
  },
)

-- A copy into a new buffer of capacity `n`.
moved-IsValid :
    (n : ℕ) (s : Chars) (v : IsValid s)
    → suc n < 2 ^ 64
    → s.size ≤ n
    → (memcpy (allocate n) v.chars (suc s.size)
        ≡ done (take (suc s.size) v.chars ++ drop (suc s.size) (allocate n)))
      × IsValid (record s {
        buffer = some (take (suc s.size) v.chars ++ drop (suc s.size) (allocate n));
        capacity = n;
      })
moved-IsValid n s v h k =
    let m =
      memcpy-fits (allocate n) v.chars (suc s.size) (omega (arith, length-allocate n h, k))
        (omega (arith, v.allocated, v.fits)) in
    (
      m.0,
      record {
        chars = take (suc s.size) v.chars ++ drop (suc s.size) (allocate n);
        owned = refl;
        allocated = m.1 ∙ length-allocate n h;
        fits = k;
        small = h;
      },
    )

pub copy-IsValid : (s : Chars) → IsValid s → Returns IsValid (copy s)
unfolding copy
copy-IsValid s v =
    let m = moved-IsValid s.capacity s v v.small v.fits in (_, rw v.owned (rw m.0 refl), m.1)

pub grow-IsValid :
    (n : ℕ) (s : Chars)
    → IsValid s
    → suc n < 2 ^ 64
    → s.size ≤ n
    → Returns (λ r. IsValid r × (r.capacity ≡ n)) (grow n s)
unfolding grow
grow-IsValid n s v h k =
    let m = moved-IsValid n s v h k in (_, rw v.owned (rw m.0 refl), (m.1, refl))

pub reserve-IsValid :
    (n : ℕ) (s : Chars)
    → IsValid s
    → suc n < 2 ^ 64
    → Returns (λ r. IsValid r × (n ≤ r.capacity)) (reserve n s)
unfolding reserve
reserve-IsValid n s v h = elim (Bool-cases (ltb s.capacity n)) [
  | inl more ↦
      let (r, eq, (w, c)) = grow-IsValid n s v h (ground (arith, more, v.fits)) in
      (r, rw more eq, (w, omega (arith, c)))
  | inr enough ↦ (s, rw enough refl, (v, ltb→le s.capacity n enough))
]

resize_room :
    (n : ℕ) (s : Chars)
    → IsValid s
    → suc n < 2 ^ 64
    → Returns (λ r. IsValid r × (n ≤ r.capacity)) (if ltb s.capacity n then reserve n s else done s)
resize_room n s v h = elim (Bool-cases (ltb s.capacity n)) [
  | inl more ↦ rw more (reserve-IsValid n s v h)
  | inr enough ↦ (s, rw enough refl, (v, ltb→le s.capacity n enough))
]

pub resize-IsValid : (n : ℕ) (s : Chars) → IsValid s → suc n < 2 ^ 64 → Returns IsValid (resize n s)
unfolding resize
resize-IsValid n s v h =
    let (r, eq, (w, c)) = resize_room n s v h in
    let sized : IsValid (record r { size = n }) = record {
      chars = w.chars;
      owned = w.owned;
      allocated = w.allocated;
      fits = c;
      small = w.small;
    } in
    let (t, eq', w') = store-IsValid n 0 (record r { size = n }) sized c in (t, rw eq eq', w')

pub strlen-nul : (text : Bytes) → Lacks 0 text → strlen (text ++ 0 ∷ []) ≡ done (length text)
unfolding strlen
strlen-nul [] h = refl
strlen-nul (c ∷ text) h = rw (strlen-nul text h.1) (ground (arith, h.0, nat_keys.same_iff c 0))

pub of_chars-IsValid :
    (text : Bytes)
    → Lacks 0 text
    → suc (length text) < 2 ^ 64
    → Returns IsValid (of_chars (text ++ 0 ∷ []))
unfolding of_chars
of_chars-IsValid text h small =
    let m =
      memcpy-fits (allocate (length text)) (text ++ 0 ∷ []) (suc (length text))
        (omega (arith, length-allocate (length text) small))
        (omega (arith, length-append text (0 ∷ []))) in
    (
      record {
        buffer = some (
            take (suc (length text)) (text ++ 0 ∷ [])
            ++ drop (suc (length text)) (allocate (length text)));
        size = length text;
        capacity = length text;
      },
      rw (strlen-nul text h) (rw m.0 refl),
      record {
        chars = _;
        owned = refl;
        allocated = m.1 ∙ length-allocate (length text) small;
        fits = omega arith;
        small = small;
      },
    )
