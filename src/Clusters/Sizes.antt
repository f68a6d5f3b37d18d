-- ===== src/Clusters/Sizes.antt =====
-- The subject clusters of a scan, from the rows to the page (src/http/chains.rs).
use linggen_memory.Prelude.{
  ℕ, zero, suc, ◌+◌, ◌≤◌, String, ◌≡◌, inl, inr, Bool, Bool-cases, false, Option-cases, List, [],
  ◌∷◌, keep, take, drop, length, length-take, length-sort_by, sort_by, All, All-map, All-take,
  All-drop, All-append, eqb, ltb, arith, if◌then◌else◌,
}
use linggen_memory.Types.{Memory, Instant, effective_timestamp}
use linggen_memory.Hybrid.{Floats}
use linggen_memory.Clusters.{
  Pooled, Member, numbered, is_pooled, with_vectors, citation_edges, pool_of, is_assigned, near,
  scores_before, closest, settled, newest_from, subject_quiet, turn, clusters_from,
  subject_clusters, subject_min_rows, subject_max_rows,
}
use linggen_memory.Clusters.Apart.{
  members_of, occurrences, pool_occurrences, occurrences_append, clusters_bounded,
}

numbered_once :
    (n k : ℕ) (rows : List Memory)
    → length (keep (λ (r : ℕ × Memory). eqb r.0 n) (numbered k rows)) ≤ (if ltb n k then 0 else 1)
numbered_once n k [] = ground arith
numbered_once n k (m ∷ ms) = ground (arith, numbered_once n (suc k) ms)

with_vectors_fewer :
    (n : ℕ) (q : ℕ × Memory → Bool) (rs : List (ℕ × Memory))
    → pool_occurrences n (with_vectors (keep q rs))
      ≤ length (keep (λ (r : ℕ × Memory). eqb r.0 n) rs)
with_vectors_fewer n q [] = omega arith
with_vectors_fewer n q (r ∷ rs) = elim (Bool-cases (q r)) [
  | inl kept ↦ elim (Option-cases r.1.vector) [
    | inl bare ↦ rw kept (rw bare (ground (arith, with_vectors_fewer n q rs)))
    | inr (v, e) ↦ rw kept (rw e (ground (arith, with_vectors_fewer n q rs)))
  ]
  | inr out ↦ rw out (ground (arith, with_vectors_fewer n q rs))
]

pool_once :
    (n : ℕ) (rows : List Memory) (derived_only : Bool) (ruled : String → Bool)
    → pool_occurrences n (pool_of rows derived_only ruled) ≤ 1
unfolding pool_of
pool_once n rows derived_only ruled =
    let once = numbered_once n 0 rows in
    ground (
      arith,
      once,
      with_vectors_fewer n (is_pooled derived_only ruled (citation_edges rows)) (numbered 0 rows),
    )

all_there : (pool : List Pooled) → All (λ (s : Pooled). 1 ≤ pool_occurrences s.index pool) pool
all_there [] = tt
all_there (p ∷ pool) = (
  ground arith,
  All-map (λ (s : Pooled). 1 ≤ pool_occurrences s.index pool)
      (λ (s : Pooled). 1 ≤ pool_occurrences s.index (p ∷ pool)) (λ s h. ground (arith, h)) pool
      (all_there pool),
)

take_fewer :
    (n k : ℕ) (cs : List (List Member))
    → occurrences n (members_of (take k cs)) ≤ occurrences n (members_of cs)
take_fewer n zero cs = omega arith
take_fewer n (suc k) [] = omega arith
take_fewer n (suc k) (c ∷ cs) = omega (
  arith,
  occurrences_append n c (members_of (take k cs)),
  take_fewer n k cs,
  occurrences_append n c (members_of cs),
)

drop_fewer :
    (n k : ℕ) (cs : List (List Member))
    → occurrences n (members_of (drop k cs)) ≤ occurrences n (members_of cs)
drop_fewer n zero cs = omega arith
drop_fewer n (suc k) [] = omega arith
drop_fewer n (suc k) (c ∷ cs) =
    omega (arith, occurrences_append n c (members_of cs), drop_fewer n k cs)

abbrev pub IsSized : List Member → Type 0
IsSized c = (subject_min_rows ≤ length c) × (length c ≤ subject_max_rows)

module _ (fl : Floats) where
  turn-IsSized :
      (pool : List Pooled) (now : Instant) (seed : Pooled) (assigned : List ℕ)
      → All IsSized (turn fl pool now seed assigned).clusters
  unfolding turn
  turn-IsSized pool now seed assigned = elim (Bool-cases (is_assigned assigned seed.index)) [
    | inl gone ↦ rw gone tt
    | inr free ↦
        elim (Bool-cases (ltb (length (near fl pool seed assigned) + 1) subject_min_rows)) [
          | inl few ↦ rw free (rw few tt)
          | inr many ↦ rw free (rw many (settled-IsSized many))
        ]
  ]
    where
      settled-IsSized :
          ltb (length (near fl pool seed assigned) + 1) subject_min_rows ≡ false
          → All IsSized (settled now seed assigned (closest (near fl pool seed assigned))).clusters
      settled-IsSized many =
          elim (Bool-cases (
            ltb now (
              newest_from (effective_timestamp seed.row) (closest (near fl pool seed assigned))
              + subject_quiet))) [
                | inl live ↦ rw live tt
                | inr quiet ↦ rw quiet (
                    let ms = near fl pool seed assigned in
                    let two : 2 ≤ length ms = ground (arith, many) in
                    let cut = length-take 11 (sort_by scores_before ms) in
                    let same = length-sort_by scores_before ms in
                    ((omega (arith, two, cut, same), omega (arith, cut)), tt))
              ]

  clusters-IsSized :
      (pool : List Pooled) (now : Instant) (seeds : List Pooled) (assigned : List ℕ)
      → All IsSized (clusters_from fl pool now seeds assigned).0
  unfolding clusters_from
  clusters-IsSized pool now [] assigned = tt
  clusters-IsSized pool now (seed ∷ seeds) assigned =
      All-append IsSized (turn fl pool now seed assigned).clusters _
        (turn-IsSized pool now seed assigned) (clusters-IsSized pool now seeds _)

  -- Whatever the rows, the page asked for and the rulings: each cluster on the page has three to twelve
  -- rows, and no row stands twice on the page, be it in one cluster or in two.
  pub subject_clusters_lem :
      (rows : List Memory) (limit offset : ℕ) (derived_only : Bool) (ruled : String → Bool)
      (now : Instant)
      → let page = (subject_clusters fl rows limit offset derived_only ruled now).1 in
        All IsSized page × ((n : ℕ) → occurrences n (members_of page) ≤ 1)
  unfolding subject_clusters
  subject_clusters_lem rows limit offset derived_only ruled now =
      let pool = pool_of rows derived_only ruled in
      let clusters = (clusters_from fl pool now pool []).0 in
      (
        All-take IsSized limit (drop offset clusters)
            (All-drop IsSized offset clusters (clusters-IsSized pool now pool [])),
        λ n. omega (
          arith,
          take_fewer n limit (drop offset clusters),
          drop_fewer n offset clusters,
          clusters_bounded fl n pool now pool [] (all_there pool),
          pool_once n rows derived_only ruled,
        ),
      )
