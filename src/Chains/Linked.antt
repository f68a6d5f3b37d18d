-- ===== src/Chains/Linked.antt =====
-- Two rows stand in one chain exactly where citations lead from one to the other
-- (src/http/chains.rs).
use linggen_memory.Prelude.{
  ℕ, zero, suc, ◌+◌, ◌≤◌, ◌<◌, ◌≡◌, ◌≢◌, ◌↔◌, inl, inr, Bool, true, false, ◌&&◌, ◌||◌, Bool-cases,
  List, [], ◌∷◌, ◌++◌, map, keep, any, length, eqb, leb, ltb, eqb_iff, arith, if◌then◌else◌, refl,
  sym, ap, ◌∙◌, subst, All, All-append, any-keep, any-sort_by,
}
use mathlib.Core.List.{Memᴰ}
use linggen_memory.Types.{Memory}
use linggen_memory.Text.{byte_length}
use linggen_memory.Clusters.{citation_edges, edges_to, numbered, cites}
use linggen_memory.Chains.{
  join_all, components, push_member, members_of, range_from, all_chains, holds, is_chain, is_wanted,
  starts_before,
}
use linggen_memory.Chains.Forest.{merge}
use linggen_memory.Chains.Labels.{
  IsInside, merge_all, gather, components_from-gather, joined-IsLabelled,
}

-- The least equivalence that holds the pairs.
pub data Linked (es : List (ℕ × ℕ)) : ℕ → ℕ → Type 0 where
  same : {i : ℕ} → Linked es i i
  edge : {i j : ℕ} → Memᴰ (i, j) es → Linked es i j
  back : {i j : ℕ} → Linked es i j → Linked es j i
  trans : {i j k : ℕ} → Linked es i j → Linked es j k → Linked es i k

merge_all_kept :
    (es : List (ℕ × ℕ)) (top : ℕ → ℕ) (i j : ℕ)
    → top i ≡ top j
    → merge_all es top i ≡ merge_all es top j
merge_all_kept [] top i j h = h
merge_all_kept (e ∷ es) top i j h = merge_all_kept es (merge e top) i j (ground (arith, h))

merge_all_edge :
    (es : List (ℕ × ℕ)) (top : ℕ → ℕ) (i j : ℕ)
    → Memᴰ (i, j) es
    → merge_all es top i ≡ merge_all es top j
merge_all_edge [] top i j m = elim m [ ]
merge_all_edge (e ∷ es) top i j (Memᴰ.head h) =
    merge_all_kept es (merge e top) i j
      (subst (λ (x : ℕ × ℕ). merge x top i ≡ merge x top j) h (ground arith))
merge_all_edge (e ∷ es) top i j (Memᴰ.tail h) = merge_all_edge es (merge e top) i j h

merge_all-Linked :
    (es : List (ℕ × ℕ)) (i j : ℕ)
    → Linked es i j
    → merge_all es (λ n. n) i ≡ merge_all es (λ n. n) j
merge_all-Linked es i j same = refl
merge_all-Linked es i j (edge h) = merge_all_edge es (λ n. n) i j h
merge_all-Linked es i j (back h) = sym (merge_all-Linked es j i h)
merge_all-Linked es i j (trans h k) = merge_all-Linked es i _ h ∙ merge_all-Linked es _ j k

-- Each row is linked to the top it is given.
merge_all_sound :
    (all es : List (ℕ × ℕ)) (top : ℕ → ℕ)
    → ((x y : ℕ) → Memᴰ (x, y) es → Memᴰ (x, y) all)
    → ((i : ℕ) → Linked all i (top i))
    → (i : ℕ) → Linked all i (merge_all es top i)
merge_all_sound all [] top sub h i = h i
merge_all_sound all ((x, y) ∷ es) top sub h i =
    merge_all_sound all es (merge (x, y) top) (λ a b m. sub a b (Memᴰ.tail m)) step i
  where
    step : (j : ℕ) → Linked all j (merge (x, y) top j)
    step j = elim (Bool-cases (eqb (top j) (top x))) [
      | inl e ↦ rw e (
          trans (subst (Linked all j) ((eqb_iff (top j) (top x)).0 e) (h j))
            (trans (back (h x)) (trans (edge (sub x y (Memᴰ.head refl))) (h y))))
      | inr e ↦ rw e (h j)
    ]

labels-Linked :
    (es : List (ℕ × ℕ)) (i j : ℕ)
    → merge_all es (λ n. n) i ≡ merge_all es (λ n. n) j
    → Linked es i j
labels-Linked es i j h =
    let sound = merge_all_sound es es (λ n. n) (λ x y m. m) (λ k. same) in
    trans (sound i) (subst (λ t. Linked es t j) (sym h) (back (sound j)))

module _ (top : ℕ → ℕ) where
  abbrev Groups : Type 0
  Groups = List (ℕ × List ℕ)

  -- The members of the first group of a top.
  abbrev group_of : ℕ → Groups → List ℕ
  group_of r [] = []
  group_of r ((q, ms) ∷ gs) = let rest = group_of r gs in if eqb q r then ms else rest

  abbrev IsOfTop : ℕ × List ℕ → Type 0
  IsOfTop g = All (λ i. top i ≡ g.0) g.1

  push_member-IsOfTop :
      (i : ℕ) (gs : Groups) → All IsOfTop gs → All IsOfTop (push_member (top i) i gs)
  push_member-IsOfTop i [] h = ((refl, tt), tt)
  push_member-IsOfTop i ((q, ms) ∷ gs) h = elim (Bool-cases (eqb q (top i))) [
    | inl e ↦
        rw e (All-append (λ k. top k ≡ q) ms (i ∷ []) h.0 (sym ((eqb_iff q (top i)).0 e), tt), h.1)
    | inr e ↦ rw e (h.0, push_member-IsOfTop i gs h.1)
  ]

  gather-IsOfTop : (is : List ℕ) (gs : Groups) → All IsOfTop gs → All IsOfTop (gather top is gs)
  gather-IsOfTop [] gs h = h
  gather-IsOfTop (i ∷ is) gs h =
      gather-IsOfTop is (push_member (top i) i gs) (push_member-IsOfTop i gs h)

  holds-append : (xs : List ℕ) (i k : ℕ) → holds (xs ++ i ∷ []) k ≡ (holds xs k || eqb i k)
  holds-append [] i k = ground arith
  holds-append (x ∷ xs) i k = ground (arith, holds-append xs i k)

  holds-push_member :
      (r i k : ℕ) (gs : Groups)
      → holds (group_of r (push_member (top i) i gs)) k
        ≡ (holds (group_of r gs) k || (eqb (top i) r && eqb i k))
  holds-push_member r i k [] = ground arith
  holds-push_member r i k ((q, ms) ∷ gs) =
      ground (arith, holds-append ms i k, holds-push_member r i k gs)

  top_of_same : (i k r : ℕ) → (eqb (top i) r && eqb i k) ≡ (eqb (top k) r && eqb i k)
  top_of_same i k r = elim (Bool-cases (eqb i k)) [
    | inl e ↦ ap (λ n. eqb (top n) r && eqb i k) ((eqb_iff i k).0 e)
    | inr e ↦ ground (arith, e)
  ]

  holds-gather :
      (r k : ℕ) (is : List ℕ) (gs : Groups)
      → holds (group_of r (gather top is gs)) k
        ≡ (holds (group_of r gs) k || (eqb (top k) r && holds is k))
  holds-gather r k [] gs = ground arith
  holds-gather r k (i ∷ is) gs = ground (
    arith,
    holds-gather r k is (push_member (top i) i gs),
    holds-push_member r i k gs,
    top_of_same i k r,
  )

  any-group_of :
      (p : List ℕ → Bool) (r : ℕ) (gs : Groups)
      → p [] ≡ false
      → p (group_of r gs) ≡ true
      → any p (members_of gs) ≡ true
  any-group_of p r [] none h = ground (arith, none, h)
  any-group_of p r ((q, ms) ∷ gs) none h = ground (arith, h, any-group_of p r gs none)

  holds-top : (r k : ℕ) (ms : List ℕ) → All (λ i. top i ≡ r) ms → holds ms k ≡ true → top k ≡ r
  holds-top r k [] h m = ground (arith, m)
  holds-top r k (x ∷ ms) h m = elim (Bool-cases (eqb x k)) [
    | inl e ↦ subst (λ n. top n ≡ r) ((eqb_iff x k).0 e) h.0
    | inr e ↦ holds-top r k ms h.1 (ground (arith, m, e))
  ]

  one_top :
      (i j : ℕ) (gs : Groups)
      → All IsOfTop gs
      → any (λ ms. holds ms i && holds ms j) (members_of gs) ≡ true
      → top i ≡ top j
  one_top i j [] h m = ground (arith, m)
  one_top i j ((q, ms) ∷ gs) h m =
      ground (arith, m, holds-top q i ms h.0, holds-top q j ms h.0, one_top i j gs h.1)

holds-range_from :
    (start count k : ℕ) → holds (range_from start count) k ≡ (leb start k && ltb k (start + count))
holds-range_from start zero k = ground arith
holds-range_from start (suc count) k = ground (arith, holds-range_from (suc start) count k)

-- The groups of labels: two rows are in one exactly if their labels are equal.
together-gather :
    (top : ℕ → ℕ) (n i j : ℕ)
    → i < n
    → j < n
    → (any (λ ms. holds ms i && holds ms j) (members_of (gather top (range_from 0 n) [])) ≡ true)
      ↔ (top i ≡ top j)
together-gather top n i j in_i in_j =
    let gs = gather top (range_from 0 n) [] in
    (
      one_top top i j gs (gather-IsOfTop top (range_from 0 n) [] tt),
      λ e.
          any-group_of top (λ ms. holds ms i && holds ms j) (top i) gs refl
            (ground (
              arith,
              e,
              holds-gather top (top i) i (range_from 0 n) [],
              holds-gather top (top i) j (range_from 0 n) [],
              holds-range_from 0 n i,
              holds-range_from 0 n j,
            )),
    )

numbered_inside :
    (k : ℕ) (rows : List Memory) (n : ℕ)
    → k + length rows ≤ n
    → All (λ (r : ℕ × Memory). r.0 < n) (numbered k rows)
numbered_inside k [] n h = tt
numbered_inside k (m ∷ ms) n h = (omega (arith, h), numbered_inside (suc k) ms n (omega (arith, h)))

edges_to-IsInside :
    (n : ℕ) (rows rest : List (ℕ × Memory))
    → All (λ (r : ℕ × Memory). r.0 < n) rows
    → All (λ (r : ℕ × Memory). r.0 < n) rest
    → All (IsInside n) (edges_to rows rest)
edges_to-IsInside n rows [] h k = tt
edges_to-IsInside n rows (cited ∷ rest) h k =
    All-append (IsInside n) _ _ (short (ltb (byte_length cited.1.id) 8))
      (edges_to-IsInside n rows rest h k.1)
  where
    from_citers :
        (rs : List (ℕ × Memory))
        → All (λ (r : ℕ × Memory). r.0 < n) rs
        → All
            (IsInside n)
            (map (λ (citer : ℕ × Memory). (citer.0, cited.0)) (keep (cites cited) rs))
    from_citers [] q = tt
    from_citers (r ∷ rs) q = elim (Bool-cases (cites cited r)) [
      | inl e ↦ rw e ((q.0, k.0), from_citers rs q.1)
      | inr e ↦ rw e (from_citers rs q.1)
    ]

    short :
        (b : Bool)
        → All (IsInside n) (
            if b
            then []
            else map (λ (citer : ℕ × Memory). (citer.0, cited.0)) (keep (cites cited) rows))
    short true = tt
    short false = from_citers rows h

pub citation_edges-IsInside :
    (rows : List Memory) → All (IsInside (length rows)) (citation_edges rows)
unfolding citation_edges
citation_edges-IsInside rows =
    let inside = numbered_inside 0 rows (length rows) (omega arith) in
    edges_to-IsInside (length rows) (numbered 0 rows) (numbered 0 rows) inside inside

two_held :
    (ms : List ℕ) (i j : ℕ) → i ≢ j → holds ms i ≡ true → holds ms j ≡ true → is_chain ms ≡ true
two_held [] i j apart h k = ground (arith, h)
two_held (x ∷ []) i j apart h k = ground (arith, h, k, apart)
two_held (x ∷ y ∷ ms) i j apart h k = ground arith

any_same :
    (p q : List ℕ → Bool) (xs : List (List ℕ))
    → ((x : List ℕ) → p x ≡ true → q x ≡ true)
    → any (λ x. q x && p x) xs ≡ any p xs
any_same p q [] h = refl
any_same p q (x ∷ xs) h = ground (arith, h x, any_same p q xs h)

components-gather :
    (n : ℕ) (es : List (ℕ × ℕ))
    → All (IsInside n) es
    → components n es ≡ gather (merge_all es (λ k. k)) (range_from 0 n) []
unfolding components
components-gather n es inside =
    components_from-gather n (merge_all es (λ k. k)) (length es) (length es) (omega arith)
      (range_from 0 n) (join_all (length es) es (range_from 0 n)) [] (joined-IsLabelled n es inside)

any-all_chains :
    (rows : List Memory) (i j : ℕ)
    → i ≢ j
    → any (λ ms. holds ms i && holds ms j) (all_chains rows false)
      ≡ any
          (λ ms. holds ms i && holds ms j)
          (members_of
            (gather (merge_all (citation_edges rows) (λ k. k)) (range_from 0 (length rows)) []))
unfolding all_chains
any-all_chains rows i j apart =
    let both = λ (ms : List ℕ). holds ms i && holds ms j in
    let groups = members_of (components (length rows) (citation_edges rows)) in
    any-sort_by starts_before both (keep (is_wanted rows false) (keep is_chain groups))
    ∙ any-keep both (is_wanted rows false) (keep is_chain groups)
    ∙ any_same both (is_wanted rows false) (keep is_chain groups) (λ ms h. refl)
    ∙ any-keep both is_chain groups
    ∙ any_same both is_chain groups
        (λ ms h. two_held ms i j apart (ground (arith, h)) (ground (arith, h)))
    ∙ ap (λ gs. any both (members_of gs))
        (components-gather (length rows) (citation_edges rows) (citation_edges-IsInside rows))

-- Where chains are not asked to be of derived notes only, some chain holds two given rows, which
-- differ, exactly when the two are linked by citations, in either direction and over any number of
-- rows.
pub all_chains-Linked :
    (rows : List Memory) (i j : ℕ)
    → i < length rows
    → j < length rows
    → i ≢ j
    → (any (λ ms. holds ms i && holds ms j) (all_chains rows false) ≡ true)
      ↔ Linked (citation_edges rows) i j
all_chains-Linked rows i j in_i in_j apart =
    let es = citation_edges rows in
    let tops = together-gather (merge_all es (λ k. k)) (length rows) i j in_i in_j in
    let same_any = any-all_chains rows i j apart in
    (
      λ h. labels-Linked es i j (tops.0 (sym same_any ∙ h)),
      λ h. same_any ∙ tops.1 (merge_all-Linked es i j h),
    )
