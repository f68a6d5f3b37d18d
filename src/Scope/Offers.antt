-- ===== src/Scope/Offers.antt =====
-- What `candidates` offers, and where it stands to the session's root.
use linggen_memory.Prelude.{
  ℕ, ◌+◌, ◌≤◌, ◌<◌, String, ◌≡◌, refl, subst, ◌⊎◌, inl, inr, Bool, Bool-cases, true, false, not,
  ◌&&◌, Option, none, some, List, [], ◌∷◌, ◌++◌, length, length-append, if◌then◌else◌, any, leb,
  map, arith, All, All-append,
}
use linggen_memory.Paths.{
  FilePath, root_dir, cur_dir, parent_dir, normal, join, path_eq, strip_prefix,
}
use linggen_memory.Paths.Prefix.{IsPrefix, IsPrefix-refl, IsPrefix-trans, strip_prefix_iff}
use linggen_memory.Scope.{Disk, is_scope_dir, max_marked}
use linggen_memory.Scope.Expand.{IsFolded, IsName}
use linggen_memory.Scope.Candidates.{
  Walk, sorted_children, sorted_names, has_marker, visit, visit_all, visit_level, marked_subdirs,
  downs, downs_of, offer, offer_all,
}

module _ (home tmp : FilePath) where
  pub offer-All :
      (P : FilePath → Type 0) (p : FilePath) (out : List FilePath)
      → P p
      → All (λ q. P q × (is_scope_dir home tmp q ≡ true)) out
      → All (λ q. P q × (is_scope_dir home tmp q ≡ true)) (offer home tmp p out)
  unfolding offer
  offer-All P p out h k =
      elim (Bool-cases (is_scope_dir home tmp p && not (any (λ q. path_eq q p) out))) [
        | inl e ↦ rw e (All-append _ out (p ∷ []) k ((h, ground (arith, e)), tt))
        | inr e ↦ rw e k
      ]

  pub offer_all-All :
      (P : FilePath → Type 0) (ps out : List FilePath)
      → All P ps
      → All (λ q. P q × (is_scope_dir home tmp q ≡ true)) out
      → All (λ q. P q × (is_scope_dir home tmp q ≡ true)) (offer_all home tmp ps out)
  unfolding offer_all
  offer_all-All P [] out h k = k
  offer_all-All P (p ∷ ps) out h k =
      offer_all-All P ps (offer home tmp p out) h.1 (offer-All P p out h.0 k)

IsPrefix-join : (dir : FilePath) (name : String) → IsPrefix dir (join dir (normal name ∷ []))
IsPrefix-join [] name = (normal name ∷ [], refl)
IsPrefix-join (c ∷ p) name = (normal name ∷ [], refl)

downs-IsPrefix :
    (base cur rest : FilePath)
    → IsPrefix base cur
    → All IsName rest
    → All (IsPrefix base) (downs cur rest)
unfolding downs
downs-IsPrefix base cur [] h k = tt
downs-IsPrefix base cur (normal s ∷ rest) h k =
    let below = IsPrefix-trans base cur (cur ++ normal s ∷ []) h (normal s ∷ [], refl) in
    (below, downs-IsPrefix base (cur ++ normal s ∷ []) rest below k.1)
downs-IsPrefix base cur (root_dir ∷ rest) h k = absurd k.0
downs-IsPrefix base cur (cur_dir ∷ rest) h k = absurd k.0
downs-IsPrefix base cur (parent_dir ∷ rest) h k = absurd k.0

names_below : (root rest : FilePath) → 0 < length root → IsFolded (root ++ rest) → All IsName rest
names_below [] rest pos h = absurd (omega arith)
names_below (root_dir ∷ p) rest pos h = All-right p rest h
  where
    All-right : (xs ys : FilePath) → All IsName (xs ++ ys) → All IsName ys
    All-right [] ys k = k
    All-right (x ∷ xs) ys k = All-right xs ys k.1
names_below (cur_dir ∷ p) rest pos h = absurd h
names_below (parent_dir ∷ p) rest pos h = absurd h
names_below (normal s ∷ p) rest pos h = absurd h

pub downs_of-IsPrefix :
    (root cwd : FilePath)
    → 0 < length root
    → IsFolded cwd
    → All (IsPrefix root) (downs_of (strip_prefix cwd root) root)
downs_of-IsPrefix root cwd pos h = by_rest (strip_prefix cwd root) refl
  where
    by_rest :
        (o : Option FilePath) → strip_prefix cwd root ≡ o → All (IsPrefix root) (downs_of o root)
    by_rest none e = tt
    by_rest (some rest) e =
        downs-IsPrefix root root rest (IsPrefix-refl root)
          (names_below root rest pos (subst IsFolded ((strip_prefix_iff cwd root rest).0 e) h))

-- The loops stay inside the root, and never find more than the bound.
record IsWalk (root : FilePath) (w : Walk) : Type 0 where
  found_in : All (IsPrefix root) w.found
  next_in : All (IsPrefix root) w.next
  few : (length w.found < max_marked) ⊎ ((w.full ≡ true) × (length w.found ≤ max_marked))

module _ (disk : Disk) (root : FilePath) where
  visit-IsWalk :
      (child : FilePath) (w : Walk)
      → IsPrefix root child
      → IsWalk root w
      → IsWalk root (visit disk child w)
  unfolding visit
  visit-IsWalk child w h k =
      let found_more = All-append (IsPrefix root) w.found (child ∷ []) k.found_in (h, tt) in
      let next_more = All-append (IsPrefix root) w.next (child ∷ []) k.next_in (h, tt) in
      let size = length-append w.found (child ∷ []) in
      by_tests found_more next_more size w.full (has_marker disk child)
        (leb max_marked (length (w.found ++ child ∷ []))) refl refl
    where
      by_tests :
          All (IsPrefix root) (w.found ++ child ∷ [])
          → All (IsPrefix root) (w.next ++ child ∷ [])
          → length (w.found ++ child ∷ []) ≡ length w.found + 1
          → (f m b : Bool) → w.full ≡ f
          → leb max_marked (length (w.found ++ child ∷ [])) ≡ b
          → IsWalk root (
              if f
              then w
              else if not m
              then record w { next = w.next ++ child ∷ [] }
              else if b
              then record w { found = w.found ++ child ∷ []; full = true }
              else record w { found = w.found ++ child ∷ []; next = w.next ++ child ∷ [] })
      by_tests found_more next_more size true m b e g = k
      by_tests found_more next_more size false false b e g = record {
        found_in = k.found_in;
        next_in = next_more;
        few = k.few;
      }
      by_tests found_more next_more size false true true e g = record {
        found_in = found_more;
        next_in = k.next_in;
        few = inr (refl, room k.few);
      }
        where
          room :
              (length w.found < max_marked) ⊎ ((w.full ≡ true) × (length w.found ≤ max_marked))
              → length (w.found ++ child ∷ []) ≤ max_marked
          room (inl less) = omega (arith, size, less)
          room (inr over) = absurd (ground (arith, over.0, e))
      by_tests found_more next_more size false true false e g = record {
        found_in = found_more;
        next_in = next_more;
        few = inl (ground (arith, g));
      }

  visit_all-IsWalk :
      (cs : List FilePath) (w : Walk)
      → All (IsPrefix root) cs
      → IsWalk root w
      → IsWalk root (visit_all disk cs w)
  unfolding visit_all
  visit_all-IsWalk [] w h k = k
  visit_all-IsWalk (c ∷ cs) w h k =
      visit_all-IsWalk cs (visit disk c w) h.1 (visit-IsWalk c w h.0 k)

  children_in :
      (dir : FilePath)
      → IsPrefix root dir
      → (names : List String)
      → All (IsPrefix root) (map (λ name. join dir (normal name ∷ [])) names)
  children_in dir h [] = tt
  children_in dir h (n ∷ ns) =
      (IsPrefix-trans root dir _ h (IsPrefix-join dir n), children_in dir h ns)

  visit_level-IsWalk :
      (ds : List FilePath) (w : Walk)
      → All (IsPrefix root) ds
      → IsWalk root w
      → IsWalk root (visit_level disk ds w)
  unfolding visit_level sorted_children
  visit_level-IsWalk [] w h k = k
  visit_level-IsWalk (d ∷ ds) w h k =
      visit_level-IsWalk ds (visit_all disk (sorted_children disk d) w) h.1 (
        visit_all-IsWalk (sorted_children disk d) w
          (children_in d h.0 (sorted_names (disk.read_dir d))) k)

  -- Whatever the directories hold: at most thirty marked subdirectories are found, and all are
  -- inside the root.
  pub marked_subdirs_lem :
      All (IsPrefix root) (marked_subdirs disk root)
      × (length (marked_subdirs disk root) ≤ max_marked)
  unfolding marked_subdirs
  marked_subdirs_lem =
      let first =
        visit_level-IsWalk (root ∷ []) (record { found = []; next = []; full = false })
          (IsPrefix-refl root, tt)
          (record { found_in = tt; next_in = tt; few = inl (omega arith) }) in
      let w1 = visit_level disk (root ∷ []) (record { found = []; next = []; full = false }) in
      let second =
        visit_level-IsWalk w1.next (record w1 { next = [] }) first.next_in
          (record { found_in = first.found_in; next_in = tt; few = first.few }) in
      (second.found_in, bound second.few)
    where
      bound :
          {n : ℕ} {t : Bool} → (n < max_marked) ⊎ ((t ≡ true) × (n ≤ max_marked)) → n ≤ max_marked
      bound (inl h) = omega arith
      bound (inr h) = h.1
