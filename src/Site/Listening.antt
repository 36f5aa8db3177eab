-- ===== src/Site/Listening.antt =====
-- Whether a port is among those that SOK.cpp listens on.
use sok.Base.{Bool, false, ◌||◌, List, [], ◌∷◌, ◌==◌}
use sok.Base.Int.{ℤ, int_keys}

abbrev pub contains : ℤ → List ℤ → Bool
contains p [] = false
contains p (q ∷ qs) = p == q || contains p qs
