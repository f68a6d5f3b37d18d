-- ===== src/Tests/Chaining.antt =====
-- The properties of the chains at three rows, of which one cites another.
use linggen_memory.Prelude.{
  arith, ℕ, String, ◌≡◌, ◌↔◌, ◌+◌, refl, Bool, true, false, ◌&&◌, ◌∷◌, [], List, All, any, length,
}
use linggen_memory.Types.{Memory, new, fact, derived}
use linggen_memory.Clusters.{citation_edges}
use linggen_memory.Chains.{all_chains, holds}
use linggen_memory.Chains.Linked
use linggen_memory.Chains.Linked.{Linked}

abbrev rows : List Memory
rows =
    new "aaaaaaaaaa" 5 "OPEN: tabs" fact derived
    ∷ new "bbbbbbbbbb" 6 "spaces" fact derived
    ∷ new "cccccccccc" 7 "see bbbbbbbbbb" fact derived
    ∷ []

all_chains-Linked_example :
    (any (λ ms. holds ms 1 && holds ms 2) (all_chains rows false) ≡ true)
    ↔ Linked (citation_edges rows) 1 2
all_chains-Linked_example =
    Linked.all_chains-Linked rows 1 2 (omega arith) (omega arith) (omega arith)

two_linked : any (λ ms. holds ms 1 && holds ms 2) (all_chains rows false) ≡ true
unfolding all_chains linggen_memory.Chains.components linggen_memory.Clusters.contains_from
    linggen_memory.Text.byte_length new linggen_memory.Text.strip_text
    linggen_memory.Text.Words.char_count linggen_memory.Prelude.sort_by
two_linked = refl
