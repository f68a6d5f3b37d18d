-- ===== src/Hybrid/Top.antt =====
-- The hits of a search are the best of those that the floor admits.
use linggen_memory.Prelude.{ℕ, String, Bool, ◌&&◌, ◌||◌, Option, List, eqb, ltb, leb, sort_by}
use linggen_memory.Types.{Float}
use linggen_memory.Hybrid.{Floats, Unicode, Candidate, Hit, ranks_before, admitted}

-- An order by two keys, both descending.
abbrev is_above : (s c t d : ℕ) → Bool
is_above s c t d = ltb t s || (eqb t s && leb d c)

module _ (fl : Floats) where
  module _ (u : Unicode) where
    abbrev ranked : List Candidate → String → Option Float → List Hit
    ranked cs text floor = sort_by (ranks_before fl) (admitted fl u cs text floor)
