-- ===== src/Clusters/Apart.antt =====
-- What the subject clusters of one scan are like (src/http/chains.rs).
use linggen_memory.Prelude.{
  ℕ, ◌+◌, ◌≤◌, ◌≡◌, refl, inl, inr, subst, Bool, Bool-cases, true, false, ◌||◌, List, [], ◌∷◌, ◌++◌,
  keep, keep-append, map, length, length-append, append-nil, ap, sym, ◌∙◌, length-keep-take,
  length-keep-sort_by, sort_by, All, eqb, eqb_iff, ltb, arith, if◌then◌else◌,
}
use linggen_memory.Types.{Instant, effective_timestamp}
use linggen_memory.Hybrid.{Floats, one}
use linggen_memory.Clusters.{
  Pooled, Member, Turn, index_of, scores_before, is_assigned, score_with, is_loose, is_near, near,
  closest, settled, turn, newest_from, subject_quiet, clusters_from, subject_min_rows,
}

abbrev pub members_of : List (List Member) → List Member
members_of [] = []
members_of (c ∷ cs) = c ++ members_of cs

-- How many of these are the row with that place.
abbrev pub occurrences : ℕ → List Member → ℕ
occurrences n ms = length (keep (λ (m : Member). eqb (index_of m) n) ms)

abbrev pub pool_occurrences : ℕ → List Pooled → ℕ
pool_occurrences n pool = length (keep (λ (p : Pooled). eqb p.index n) pool)

pub occurrences_append :
    (n : ℕ) (ms ks : List Member) → occurrences n (ms ++ ks) ≡ occurrences n ms + occurrences n ks
occurrences_append n ms ks =
    let p : Member → Bool = λ m. eqb (index_of m) n in
    omega (arith, ap length (keep-append p ms ks), length-append (keep p ms) (keep p ks))

module _ (fl : Floats) where
  module _ (seed : Pooled) (assigned : List ℕ) (n : ℕ) where
    near-occurrences :
        (pool : List Pooled) → occurrences n (near fl pool seed assigned) ≤ pool_occurrences n pool
    near-occurrences [] = omega arith
    near-occurrences (p ∷ pool) = elim (Bool-cases (is_loose seed assigned p)) [
      | inl loose ↦ elim (Bool-cases (is_near (score_with fl seed p))) [
        | inl e ↦ rw loose (rw e (ground (arith, near-occurrences pool)))
        | inr e ↦ rw loose (rw e (ground (arith, near-occurrences pool)))
      ]
      | inr tied ↦ rw tied (ground (arith, near-occurrences pool))
    ]

    tied_lem :
        (p : Pooled)
        → (eqb seed.index n || is_assigned assigned n) ≡ true
        → eqb p.index n ≡ true
        → is_loose seed assigned p ≡ false
    tied_lem p h e = let same : p.index ≡ n = (eqb_iff p.index n).0 e in rw same (ground (arith, h))

    -- Neither the seed nor a row that is taken is near.
    near_none :
        (pool : List Pooled)
        → (eqb seed.index n || is_assigned assigned n) ≡ true
        → occurrences n (near fl pool seed assigned) ≡ 0
    near_none [] h = refl
    near_none (p ∷ pool) h = elim (Bool-cases (is_loose seed assigned p)) [
      | inl loose ↦ elim (Bool-cases (eqb p.index n)) [
        | inl hit ↦ absurd (ground (arith, loose, tied_lem p h hit))
        | inr miss ↦ elim (Bool-cases (is_near (score_with fl seed p))) [
          | inl e ↦ rw loose (rw e (rw miss (near_none pool h)))
          | inr e ↦ rw loose (rw e (near_none pool h))
        ]
      ]
      | inr tied ↦ rw tied (near_none pool h)
    ]

    closest-occurrences : (ms : List Member) → occurrences n (closest ms) ≤ occurrences n ms
    closest-occurrences ms =
        let p : Member → Bool = λ m. eqb (index_of m) n in
        omega (
          arith,
          length-keep-take p 11 (sort_by scores_before ms),
          length-keep-sort_by scores_before p ms,
        )

  not_taken :
      (n : ℕ) (ms : List Member) (assigned : List ℕ)
      → is_assigned (map index_of ms ++ assigned) n ≡ false
      → (occurrences n ms ≡ 0) × (is_assigned assigned n ≡ false)
  not_taken n [] assigned h = (refl, h)
  not_taken n (m ∷ ms) assigned h =
      let (none_there, rest) = not_taken n ms assigned (ground (arith, h)) in
      (ground (arith, h, none_there), rest)

  -- What a turn may do about the row with place `n`.
  abbrev IsBounded : ℕ → List Pooled → List ℕ → Turn → Type 0
  IsBounded n pool assigned t =
      (occurrences n (members_of t.clusters)
        ≤ (if is_assigned assigned n then 0 else pool_occurrences n pool))
      × (is_assigned t.assigned n ≡ false
          → (occurrences n (members_of t.clusters) ≡ 0) × (is_assigned assigned n ≡ false))

  module _ (n : ℕ) (pool : List Pooled) (now : Instant) (seed : Pooled) (assigned : List ℕ)
      (there : 1 ≤ pool_occurrences seed.index pool) where
    idle-IsBounded :
        IsBounded n pool assigned (record { clusters = []; live = 0; assigned = assigned })
    idle-IsBounded = (ground arith, λ h. (refl, h))

    members : List Member
    members = closest (near fl pool seed assigned)

    few_members :
        (occurrences n members ≤ pool_occurrences n pool)
        × ((eqb seed.index n || is_assigned assigned n) ≡ true → occurrences n members ≡ 0)
    unfolding members
    few_members = (
      omega (
        arith,
        closest-occurrences seed assigned n (near fl pool seed assigned),
        near-occurrences seed assigned n pool,
      ),
      λ h. omega (
        arith,
        closest-occurrences seed assigned n (near fl pool seed assigned),
        near_none seed assigned n pool h,
      ),
    )

    cluster_bounded :
        is_assigned assigned seed.index ≡ false
        → occurrences n ((one, seed) ∷ members)
          ≤ (if is_assigned assigned n then 0 else pool_occurrences n pool)
    cluster_bounded free = elim (Bool-cases (eqb seed.index n)) [
      | inl hit ↦
          let same : seed.index ≡ n = (eqb_iff seed.index n).0 hit in
          let loose = subst (λ k. is_assigned assigned k ≡ false) same free in
          rw hit (
            rw loose (
              omega (
                arith,
                few_members.1 (ground (arith, hit)),
                subst (λ k. 1 ≤ pool_occurrences k pool) same there,
              )))
      | inr miss ↦ elim (Bool-cases (is_assigned assigned n)) [
        | inl taken ↦ rw miss (rw taken (omega (arith, few_members.1 (ground (arith, taken)))))
        | inr loose ↦ rw miss (rw loose (omega (arith, few_members.0)))
      ]
    ]

    one_cluster :
        occurrences n (members_of (((one, seed) ∷ members) ∷ []))
        ≡ occurrences n ((one, seed) ∷ members)
    one_cluster = ap (occurrences n) (append-nil ((one, seed) ∷ members))

    untaken :
        is_assigned (seed.index ∷ map index_of members ++ assigned) n ≡ false
        → (occurrences n ((one, seed) ∷ members) ≡ 0) × (is_assigned assigned n ≡ false)
    untaken h =
        let (zero_times, loose) = not_taken n members assigned (ground (arith, h)) in
        (ground (arith, h, zero_times), loose)

    settled-IsBounded :
        is_assigned assigned seed.index ≡ false
        → IsBounded n pool assigned (settled now seed assigned members)
    settled-IsBounded free =
        elim (Bool-cases
          (ltb now (newest_from (effective_timestamp seed.row) members + subject_quiet))) [
            | inl live ↦ rw live (omega arith, λ h. (refl, (untaken h).1))
            | inr quiet ↦ rw quiet (
              subst (λ k. k ≤ (if is_assigned assigned n then 0 else pool_occurrences n pool))
                  (sym one_cluster) (cluster_bounded free),
              λ h. (one_cluster ∙ (untaken h).0, (untaken h).1),
            )
          ]

    turn-IsBounded : IsBounded n pool assigned (turn fl pool now seed assigned)
    unfolding turn members
    turn-IsBounded = elim (Bool-cases (is_assigned assigned seed.index)) [
      | inl gone ↦ rw gone idle-IsBounded
      | inr free ↦
          elim (Bool-cases (ltb (length (near fl pool seed assigned) + 1) subject_min_rows)) [
            | inl few ↦ rw free (rw few idle-IsBounded)
            | inr many ↦ rw free (rw many (settled-IsBounded free))
          ]
    ]

  both_occurrences :
      (n : ℕ) (cs ds : List (List Member))
      → occurrences n (members_of (cs ++ ds))
        ≡ occurrences n (members_of cs) + occurrences n (members_of ds)
  both_occurrences n [] ds = omega arith
  both_occurrences n (c ∷ cs) ds = omega (
    arith,
    occurrences_append n c (members_of (cs ++ ds)),
    both_occurrences n cs ds,
    occurrences_append n c (members_of cs),
  )

  pub clusters_bounded :
      (n : ℕ) (pool : List Pooled) (now : Instant) (seeds : List Pooled) (assigned : List ℕ)
      → All (λ (s : Pooled). 1 ≤ pool_occurrences s.index pool) seeds
      → occurrences n (members_of (clusters_from fl pool now seeds assigned).0)
        ≤ (if is_assigned assigned n then 0 else pool_occurrences n pool)
  unfolding clusters_from
  clusters_bounded n pool now [] assigned there = ground arith
  clusters_bounded n pool now (seed ∷ seeds) assigned there =
      let t = turn fl pool now seed assigned in
      let (bound, untaken) = turn-IsBounded n pool now seed assigned there.0 in
      let rest = clusters_bounded n pool now seeds t.assigned there.1 in
      let split = both_occurrences n t.clusters (clusters_from fl pool now seeds t.assigned).0 in
      let limit : Bool → ℕ = λ b. if b then 0 else pool_occurrences n pool in
      elim (Bool-cases (is_assigned t.assigned n)) [
        | inl gone ↦
            let none_more =
              subst
                (λ b.
                  occurrences n (members_of (clusters_from fl pool now seeds t.assigned).0)
                  ≤ limit b)
                gone rest in
            omega (arith, split, bound, none_more)
        | inr free ↦
            let (none_here, loose) = untaken free in
            let more =
              subst
                (λ b.
                  occurrences n (members_of (clusters_from fl pool now seeds t.assigned).0)
                  ≤ limit b)
                free rest in
            rw loose (omega (arith, split, none_here, more))
      ]
