-- ===== src/Vector/Growth.antt =====
-- Core/mstd/vector.hpp holds the elements that were pushed, in their order.
use sok.Base.{
  nat_keys, ℕ, zero, suc, ◌-◌, ◌≤◌, ◌<◌, List, [], ◌∷◌, ◌++◌, none, if◌then◌else◌, ltb, ◌==◌, ◌≡◌,
  refl, sym, ap, ◌∙◌, arith, length, take, replicate, set, get_elem?, length-append, length-set,
  length-replicate, length-take, append_assoc, append-nil, take-append_le, take_all, Bool-cases,
  inl, inr,
}
use sok.Vector.{Vector, empty, resize, grown, put, push_back, push_all, at, make_room}

grown-lt : (c : ℕ) → c < grown c
unfolding grown
grown-lt c = ground arith

module _ {ℓ} {A : Type ℓ} where
  -- The buffer has its capacity, and the elements in use fit in it.
  pub record IsValid (v : Vector A) : Type ℓ where
    pub allocated : length v.buffer ≡ v.capacity
    pub fits : v.size ≤ v.capacity

  abbrev pub elements : Vector A → List A
  elements v = take v.size v.buffer

  take-set :
      (n : ℕ) (xs : List A) (x : A)
      → n < length xs
      → take (suc n) (set xs n x) ≡ take n xs ++ x ∷ []
  take-set n [] x h = absurd (omega (arith, h))
  take-set zero (y ∷ xs) x h = refl
  take-set (suc n) (y ∷ xs) x h = ap (◌∷◌ y) (take-set n xs x (omega (arith, h)))

  pub get_elem?-take :
      (n i : ℕ) (xs : List A) → get_elem? (take n xs) i ≡ (if ltb i n then get_elem? xs i else none)
  get_elem?-take zero i xs = ground arith
  get_elem?-take (suc n) i [] = ground arith
  get_elem?-take (suc n) zero (x ∷ xs) = ground arith
  get_elem?-take (suc n) (suc i) (x ∷ xs) = get_elem?-take n i xs ∙ ground arith

  resize-elements :
      (c : ℕ) (v : Vector A)
      → IsValid v
      → v.size ≤ c
      → IsValid (resize c v) × (elements (resize c v) ≡ elements v)
  unfolding resize
  resize-elements c v valid h =
      let moved = length-take v.size v.buffer in
      (
        record {
          allocated =
              length-append (elements v) (replicate (c - v.size) v.blank)
              ∙ omega (
                arith,
                moved,
                length-replicate (c - v.size) v.blank,
                valid.allocated,
                valid.fits,
                h,
              );
          fits = h;
        },
        take-append_le v.size (elements v) (replicate (c - v.size) v.blank)
              (omega (arith, moved, valid.allocated, valid.fits))
            ∙ take_all v.size (elements v) (omega (arith, moved)),
      )

  put-elements :
      (x : A) (v : Vector A)
      → IsValid v
      → v.size < v.capacity
      → IsValid (put x v) × (elements (put x v) ≡ elements v ++ x ∷ [])
  unfolding put
  put-elements x v valid h = (
    record { allocated = length-set v.buffer v.size x ∙ valid.allocated; fits = omega (arith, h) },
    take-set v.size v.buffer x (omega (arith, h, valid.allocated)),
  )

  make_room-elements :
      (v : Vector A)
      → IsValid v
      → IsValid (make_room v)
        × (elements (make_room v) ≡ elements v)
        × ((make_room v).size ≡ v.size)
        × (v.size < (make_room v).capacity)
  unfolding make_room resize
  make_room-elements v valid = elim (Bool-cases (v.size == v.capacity)) [
    | inl full ↦
        let same : v.size ≡ v.capacity = ground (arith, full) in
        let more : v.size < grown v.capacity = omega (arith, same, grown-lt v.capacity) in
        let (valid', kept) = resize-elements (grown v.capacity) v valid (omega (arith, more)) in
        rw (full, make_room) (valid', kept, refl, more)
    | inr room ↦ rw (room, make_room) (valid, refl, refl, ground (arith, room, valid.fits))
  ]

  push_back-elements :
      (x : A) (v : Vector A)
      → IsValid v
      → IsValid (push_back x v) × (elements (push_back x v) ≡ elements v ++ x ∷ [])
  unfolding push_back
  push_back-elements x v valid =
      let (valid', kept, same, room) = make_room-elements v valid in
      let (valid'', more) = put-elements x (make_room v) valid' (omega (arith, same, room)) in
      (valid'', more ∙ ap (λ (xs : List A). xs ++ x ∷ []) kept)

  pub push_all-elements :
      (xs : List A) (v : Vector A)
      → IsValid v
      → IsValid (push_all xs v) × (elements (push_all xs v) ≡ elements v ++ xs)
  push_all-elements [] v valid = (valid, sym (append-nil (elements v)))
  push_all-elements (x ∷ xs) v valid =
      let (valid₁, one) = push_back-elements x v valid in
      let (valid', all) = push_all-elements xs (push_back x v) valid₁ in
      (valid', all ∙ ap (λ (l : List A). l ++ xs) one ∙ append_assoc (elements v) (x ∷ []) xs)

  -- A vector that is built from a list holds the list: `operator[]` answers its elements in their
  -- order, and throws from its length on, however often the buffer has moved.
  pub at-push_all :
      (blank : A) (xs : List A) (i : ℕ) → at i (push_all xs (empty blank)) ≡ get_elem? xs i
  unfolding at empty
  at-push_all blank xs i =
      let v = push_all xs (empty blank) in
      let (valid, all) =
        push_all-elements xs (empty blank) (record { allocated = refl; fits = omega arith }) in
      sym (get_elem?-take v.size i v.buffer) ∙ ap (λ (l : List A). get_elem? l i) all
