-- ===== src/FileCache/Shrink.antt =====
-- The eviction loop of Core/mstd/fileCache.hpp ends, and keeps what the budget holds.
use sok.Base.{
  nat_keys, ℕ, zero, suc, ◌≤◌, ◌<◌, List, [], ◌∷◌, Option, some, ◌≡◌, refl, sym, ap, ◌∙◌, arith,
  ltb, length, length-drop_last, Bool-cases, inl, inr,
}
use sok.Base.Map.{Map}
use sok.Base.Text.{Bytes}
use sok.FileCache.{CachedFile, Node, FileCache, evict, shrink}
use sok.FileCache.Invariant.{files, view, Coherent, IsValid, evict-Evicted}
use sok.FileCache.Links.{entries}
use sok.FileCache.Sizes.{fit_all, fit-drop_last}
use sok.FileCache.Spec.{total, fit}

total-entries_nil :
    (m : Map Bytes CachedFile) (ns : List Node) → length ns ≡ 0 → total (entries m ns) ≡ 0
total-entries_nil m [] h = refl
total-entries_nil m (n ∷ ns) h = absurd (omega arith)

-- What the loop leaves: the budget holds, and the files are those that fit.
abbrev pub Shrunk : FileCache → Option FileCache → Type 0
Shrunk c r =
    (c' : FileCache) × (r ≡ some c')
    × IsValid c'
    × (view c' ≡ record (view c) { files = fit c.max_size (files c) })

done-Shrunk : (c : FileCache) → Coherent c → c.current_size ≤ c.max_size → Shrunk c (some c)
done-Shrunk c v h =
    let fits = fit_all c.max_size (files c) (let n = v.counted in omega arith) in
    (c, refl, record { coherent = v; within = h }, λ i. record (view c) { files = sym fits i })

pub shrink-Shrunk :
    (n : ℕ) (c : FileCache) → Coherent c → length c.lru_list < n → Shrunk c (shrink n c)
unfolding shrink
shrink-Shrunk zero c v h = elim h [ ]
shrink-Shrunk (suc n) c v h = elim (Bool-cases (ltb c.max_size c.current_size)) [
  | inl more ↦
      let (v', dropped, shorter, budget, hits, misses) = evict-Evicted c v in
      let nonempty = total-entries_nil c.cache c.lru_list in
      let (c', run, valid, seen) = shrink-Shrunk n (evict c) v' (
        let counted = v.counted in
        ground (arith, ap length shorter, length-drop_last c.lru_list, nonempty)) in
      let same : fit (evict c).max_size (files (evict c)) ≡ fit c.max_size (files c) =
        rw (budget, dropped)
          (fit-drop_last c.max_size (files c) (let counted = v.counted in ground arith)) in
      (
        c',
        rw (more, shrink) run,
        valid,
        seen ∙ λ i. record {
          max_size = budget i;
          files = same i;
          hits = hits i;
          misses = misses i;
        },
      )
  | inr stop ↦ rw (stop, shrink) (done-Shrunk c v (ground arith))
]
