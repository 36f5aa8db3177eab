-- ===== src/Https/Owns.antt =====
-- The map of Core/protocols/https.hpp owns the objects of OpenSSL: no leak, no second free.
use sok.Base.{
  nat_keys, ℕ, ◌<◌, true, false, not, ◌||◌, List, [], ◌∷◌, none, some, ◌==◌, ◌≡◌, ◌≢◌, refl, arith,
  Bool-cases, Option-cases, inl, inr, subst,
}
use sok.Base.Map.{lookup, erase, lookup-insert, lookup-erase, lookup-erase_self}
use sok.Https.Objects.{Tls, contains, remove, ssl_new, ssl_free, release}

-- Every entry's object is allocated and is no other entry's, every allocated object has an entry,
-- and no object was freed twice.
pub record Owns (t : Tls) : Type 0 where
  pub entries : (fd ssl : ℕ) → lookup fd t.ssl_map ≡ some ssl → contains ssl t.live ≡ true
  pub apart :
      (fd fd' ssl : ℕ) → lookup fd t.ssl_map ≡ some ssl → lookup fd' t.ssl_map ≡ some ssl → fd ≡ fd'
  pub no_leak : (ssl : ℕ) → contains ssl t.live ≡ true → (fd : ℕ) × (lookup fd t.ssl_map ≡ some ssl)
  pub fresh : (ssl : ℕ) → contains ssl t.live ≡ true → ssl < t.next
  pub freed_once : t.double_free ≡ false

contains-remove_self : (x : ℕ) (xs : List ℕ) → contains x (remove x xs) ≡ false
unfolding contains remove
contains-remove_self x [] = refl
contains-remove_self x (y ∷ ys) = ground (arith, contains-remove_self x ys)

contains-remove_ne : (x z : ℕ) (xs : List ℕ) → x ≢ z → contains z (remove x xs) ≡ contains z xs
unfolding contains remove
contains-remove_ne x z [] h = refl
contains-remove_ne x z (y ∷ ys) h = ground (arith, contains-remove_ne x z ys)

contains-remove : (x z : ℕ) (xs : List ℕ) → contains z (remove x xs) ≡ true → contains z xs ≡ true
contains-remove x z xs h = elim (Bool-cases (x == z)) [
  | inl same ↦ absurd (ground (arith, contains-remove_self x xs))
  | inr other ↦ ground (arith, contains-remove_ne x z xs)
]

pub ssl_new-Owns : (fd : ℕ) (t : Tls) → Owns t → lookup fd t.ssl_map ≡ none → Owns (ssl_new fd t)
unfolding ssl_new contains
ssl_new-Owns fd t o absent = record {
  entries = λ g ssl e. ground (arith, lookup-insert fd g t.next t.ssl_map, o.entries g ssl);
  apart = λ g g' ssl e e'. ground (
    arith,
    lookup-insert fd g t.next t.ssl_map,
    lookup-insert fd g' t.next t.ssl_map,
    o.apart g g' ssl,
    o.fresh ssl,
    o.entries g ssl,
    o.entries g' ssl,
  );
  no_leak = λ ssl e. elim (Bool-cases (t.next == ssl)) [
    | inl new ↦ (fd, ground (arith, lookup-insert fd fd t.next t.ssl_map))
    | inr old ↦
        let (g, held) = o.no_leak ssl (ground arith) in
        (g, ground (arith, lookup-insert fd g t.next t.ssl_map))
  ];
  fresh = λ ssl e. ground (arith, o.fresh ssl);
  freed_once = o.freed_once;
}

pub release-Owns : (fd : ℕ) (t : Tls) → Owns t → Owns (release fd t)
unfolding release ssl_free
release-Owns fd t o = elim (Option-cases (lookup fd t.ssl_map)) [
  | inl absent ↦ subst Owns (rw (absent, release)) o
  | inr (ssl, found) ↦
      let after : Tls = record t {
        ssl_map = erase fd t.ssl_map;
        live = remove ssl t.live;
        double_free = t.double_free || not (contains ssl t.live);
      } in
      subst Owns {x = after} (rw (found, release)) (record {
        entries = λ g s e. ground (
          arith,
          lookup-erase fd g t.ssl_map,
          o.entries g s,
          o.apart g fd s,
          contains-remove_ne ssl s t.live,
        );
        apart = λ g g' s e e'.
            ground
              (arith, lookup-erase fd g t.ssl_map, lookup-erase fd g' t.ssl_map, o.apart g g' s);
        no_leak = λ s h.
            let (g, held) = o.no_leak s (contains-remove ssl s t.live h) in
            (g, ground (arith, lookup-erase fd g t.ssl_map, contains-remove_self ssl t.live));
        fresh = λ s h. o.fresh s (contains-remove ssl s t.live h);
        freed_once = ground (arith, o.entries fd ssl found);
      })
]

-- After it the descriptor has no object.
pub release-absent : (fd : ℕ) (t : Tls) → lookup fd (release fd t).ssl_map ≡ none
unfolding release
release-absent fd t = elim (Option-cases (lookup fd t.ssl_map)) [
  | inl absent ↦ ground arith
  | inr (ssl, found) ↦ ground (arith, lookup-erase_self fd t.ssl_map)
]
