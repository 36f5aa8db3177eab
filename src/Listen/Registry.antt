-- ===== src/Listen/Registry.antt =====
-- `FdPortRegistry` of Core/utils/SocketUtils.hpp. Its mutex makes the calls atomic.
use sok.Base.{
  nat_keys, ℕ, Bool, true, false, List, [], ◌∷◌, Option, none, some, if◌then◌else◌, ◌==◌, ◌≡◌, refl,
  arith, ◌∙◌,
}
use sok.Base.Int.{ℤ, negsuc}
use sok.Base.Map.{Map, lookup, insert, erase, lookup-insert, lookup-erase}

abbrev pub FdPortRegistry : Type 0
FdPortRegistry = Map ℕ ℤ

-- An entry that is there stays.
unfoldable pub add_fd_port : ℕ → ℤ → FdPortRegistry → Bool × FdPortRegistry
add_fd_port fd port fd_port = elim (lookup fd fd_port) [
  | some old ↦ (false, fd_port)
  | none ↦ (true, insert fd port fd_port)
]

unfoldable pub get_port : ℕ → FdPortRegistry → ℤ
get_port fd fd_port = elim (lookup fd fd_port) [ some port ↦ port | none ↦ negsuc 0 ]

unfoldable pub remove_fd : ℕ → FdPortRegistry → FdPortRegistry
remove_fd fd fd_port = erase fd fd_port

-- The calls that change the registry.
pub data Call : Type 0 where
  add : ℕ → ℤ → Call
  remove : ℕ → Call

abbrev pub run : List Call → FdPortRegistry → FdPortRegistry
run [] r = r
run (add fd port ∷ calls) r = run calls (add_fd_port fd port r).1
run (remove fd ∷ calls) r = run calls (remove_fd fd r)

abbrev pub keep_first : ℕ → ℕ → ℤ → Option ℤ → Option ℤ
keep_first q fd port (some old) = some old
keep_first q fd port none = if fd == q then some port else none

-- One descriptor's port: the first that was added since its last removal.
abbrev pub first_added : ℕ → List Call → Option ℤ → Option ℤ
first_added q [] o = o
first_added q (add fd port ∷ calls) o = first_added q calls (keep_first q fd port o)
first_added q (remove fd ∷ calls) o = first_added q calls (if fd == q then none else o)

-- What `getPort` answers of a port that may be known.
abbrev pub or_minus_one : Option ℤ → ℤ
or_minus_one (some port) = port
or_minus_one none = negsuc 0

pub lookup-add_fd_port :
    (q fd : ℕ) (port : ℤ) (r : FdPortRegistry)
    → lookup q (add_fd_port fd port r).1 ≡ keep_first q fd port (lookup q r)
unfolding add_fd_port
lookup-add_fd_port q fd port r = ground (arith, lookup-insert fd q port r)

lookup-run :
    (q : ℕ) (calls : List Call) (r : FdPortRegistry)
    → lookup q (run calls r) ≡ first_added q calls (lookup q r)
unfolding remove_fd
lookup-run q [] r = refl
lookup-run q (add fd port ∷ calls) r =
    lookup-run q calls (add_fd_port fd port r).1 ∙ rw (lookup-add_fd_port q fd port r)
lookup-run q (remove fd ∷ calls) r = lookup-run q calls (erase fd r) ∙ rw (lookup-erase fd q r)

-- After any calls on any registry `getPort` answers the first port that was added for the
-- descriptor since its last removal, and -1 if there is none.
pub get_port-run :
    (q : ℕ) (calls : List Call) (r : FdPortRegistry)
    → get_port q (run calls r) ≡ or_minus_one (first_added q calls (lookup q r))
unfolding get_port
get_port-run q calls r = rw (lookup-run q calls r, get_port)
