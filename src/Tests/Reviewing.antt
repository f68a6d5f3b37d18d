-- ===== src/Tests/Reviewing.antt =====
-- The properties of the review queue at concrete inputs.
use linggen_memory.Prelude.{refl, true, Option, none, some, [], ◌∷◌}
use linggen_memory.Issues.{IssuesState, load, new_issue}
use linggen_memory.Issues.Twins
use linggen_memory.Issues.Twins.{Change, add, resolve, after, IsTwinless}

abbrev queued : Option IssuesState
queued = some (new_issue "i1" "chain" ("b" ∷ "a" ∷ []) "n" 1 ∷ [])

after-IsTwinless_example : IsTwinless (
    load (
      after
        (add true "i2" 2 "chain" ("a" ∷ "b" ∷ []) "again"
          ∷ resolve true 3 "i1" "resolved" none
          ∷ add true "i3" 4 "chain" ("a" ∷ "b" ∷ []) "again"
          ∷ [])
        queued))
after-IsTwinless_example =
    Twins.after-IsTwinless
      (add true "i2" 2 "chain" ("a" ∷ "b" ∷ []) "again"
        ∷ resolve true 3 "i1" "resolved" none
        ∷ add true "i3" 4 "chain" ("a" ∷ "b" ∷ []) "again"
        ∷ [])
      queued (refl, tt)
