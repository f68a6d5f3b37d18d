-- ===== src/Tests/Clustering.antt =====
-- The property of the subject clusters at three rows.
use linggen_memory.Prelude.{
  arith, ℕ, ◌≤◌, String, ◌≡◌, refl, Bool, true, false, some, List, [], ◌∷◌, All, length,
  if◌then◌else◌, eqb,
}
use linggen_memory.Types.{Memory, new, fact, derived}
use linggen_memory.Hybrid.{Floats, one}
use linggen_memory.Clusters.{subject_clusters, clusters_from, contains_from, contains_id}
use linggen_memory.Clusters.Fuel
use linggen_memory.Clusters.Apart.{members_of, occurrences}
use linggen_memory.Clusters.Sizes
use linggen_memory.Clusters.Sizes.{IsSized}

-- Every operation answers one: all rows are alike.
abbrev flat : Floats
flat = record {
  add = λ x y. one;
  sub = λ x y. one;
  mul = λ x y. one;
  div = λ x y. one;
  max = λ x y. one;
  ln = λ x. one;
  sqrt = λ x. one;
  of_usize = λ n. one;
  sum = λ xs. one;
}

abbrev note : String → Memory
note id = record (new id 5 "x" fact derived) { vector = some (one ∷ []) }

abbrev notes : List Memory
notes = note "aaaaaaaaaa" ∷ note "bbbbbbbbbb" ∷ note "cccccccccc" ∷ []

subject_clusters_lem_example :
    let page = (subject_clusters flat notes 10 0 true (λ id. false) 9000000000000).1 in
    All IsSized page × ((n : ℕ) → occurrences n (members_of page) ≤ 1)
subject_clusters_lem_example =
    Sizes.subject_clusters_lem flat notes 10 0 true (λ id. false) 9000000000000

one_cluster : (subject_clusters flat notes 10 0 true (λ id. false) 9000000000000).0 ≡ 1
unfolding subject_clusters clusters_from linggen_memory.Clusters.pool_of
    linggen_memory.Text.byte_length new linggen_memory.Text.strip_text
    linggen_memory.Text.Words.char_count linggen_memory.Recall.cosine_similarity
    linggen_memory.Prelude.sort_by
one_cluster = refl

contains_from_enough_example :
    contains_from 40 false "see 7gOUF6ryq6a and 7gOUF6ryq6" "7gOUF6ryq6"
    ≡ some (contains_id "see 7gOUF6ryq6a and 7gOUF6ryq6" "7gOUF6ryq6")
unfolding linggen_memory.Text.Words.char_count
contains_from_enough_example =
    Fuel.contains_from_enough "7gOUF6ryq6" refl 40 "see 7gOUF6ryq6a and 7gOUF6ryq6" (omega arith)

cited_later : contains_id "see 7gOUF6ryq6a and 7gOUF6ryq6" "7gOUF6ryq6" ≡ true
unfolding contains_id contains_from linggen_memory.Text.strip_text
    linggen_memory.Text.Words.char_count
cited_later = refl
