-- ===== src/Scope/Accepts.antt =====
-- What is offered is what is accepted.
use linggen_memory.Prelude.{
  ◌<◌, String, ◌≡◌, refl, ap, ◌⊎◌, inl, inr, Bool-cases, true, false, Option, none, some, List, [],
  ◌∷◌, length, is_some, any, arith, All, All-map,
}
use linggen_memory.Paths.{FilePath, path_eq, strip_prefix}
use linggen_memory.Paths.Prefix.{
  IsPrefix, IsPrefix-refl, IsPrefix-trans, starts_with_iff, path_eq_iff,
}
use linggen_memory.Scope
use linggen_memory.Scope.{Disk, is_scope_dir, is_valid_for, is_within, skill_dir}
use linggen_memory.Scope.Chains.{skill_dir_sound}
use linggen_memory.Scope.Expand.{IsFolded}
use linggen_memory.Scope.Candidates.{marked_subdirs, downs_of, candidates}
use linggen_memory.Scope.Offers.{offer-All, offer_all-All, downs_of-IsPrefix, marked_subdirs_lem}

module _ (home tmp : FilePath) (disk : Disk) (root : FilePath) where
  -- Inside the root, or one of its parents.
  abbrev pub IsNear : FilePath → Type 0
  IsNear p = IsPrefix root p ⊎ (any (λ a. path_eq a p) (Scope.ancestors home tmp root) ≡ true)

  path_eq_refl : (p : FilePath) → path_eq p p ≡ true
  path_eq_refl p = (path_eq_iff p p).1 refl

  -- Each element of a list is found in it.
  members : (parents : List FilePath) → All (λ p. any (λ a. path_eq a p) parents ≡ true) parents
  members [] = tt
  members (a ∷ as') =
      (ground (arith, path_eq_refl a), All-map _ _ (λ p h. ground (arith, h)) as' (members as'))

  candidates-IsNear :
      (cwd : FilePath)
      → 0 < length root
      → IsFolded cwd
      → All (λ p. IsNear p × (is_scope_dir home tmp p ≡ true)) (candidates home tmp disk root cwd)
  unfolding candidates
  candidates-IsNear cwd pos folded =
      offer_all-All home tmp IsNear (Scope.ancestors home tmp root) _
        (All-map _ _ (λ p h. inr h) _ (members (Scope.ancestors home tmp root)))
        (offer_all-All home tmp IsNear (marked_subdirs disk root) _
          (All-map _ _ (λ p h. inl h) _ (marked_subdirs_lem disk root).0)
          (offer_all-All home tmp IsNear (downs_of (strip_prefix cwd root) root) _
            (All-map _ _ (λ p h. inl h) _ (downs_of-IsPrefix root cwd pos folded))
            (offer-All home tmp IsNear root [] (inl (IsPrefix-refl root)) tt)))

  ancestors_in_skill :
      (r s : FilePath) (n : String)
      → skill_dir home r ≡ some (s, n)
      → Scope.ancestors home tmp r ≡ []
  unfolding Scope.ancestors
  ancestors_in_skill r s n e = rw (ap is_some e) refl

  near-is_valid_for :
      (p : FilePath)
      → IsNear p
      → is_scope_dir home tmp p ≡ true
      → disk.is_dir p ≡ true
      → is_valid_for home tmp disk p root ≡ true
  unfolding is_valid_for
  near-is_valid_for p near scope there =
      ground (arith, scope, there, by_skill (skill_dir home root) refl near)
    where
      no_parents :
          (s : FilePath) (n : String)
          → skill_dir home root ≡ some (s, n)
          → any (λ a. path_eq a p) (Scope.ancestors home tmp root) ≡ false
      no_parents s n e = ap (any (λ a. path_eq a p)) (ancestors_in_skill root s n e)

      by_skill :
          (o : Option (FilePath × String))
          → skill_dir home root ≡ o
          → IsNear p
          → is_within home tmp disk o p root ≡ true
      by_skill none e (inl below) = ground (arith, (starts_with_iff p root).1 below)
      by_skill none e (inr above) = ground (arith, above)
      by_skill (some (s, n)) e (inl below) =
          (starts_with_iff p s).1
            (IsPrefix-trans s root p (skill_dir_sound home root s n e).0 below)
      by_skill (some (s, n)) e (inr above) = absurd (ground (arith, above, no_parents s n e))

  -- In a session with a root, whose directory is a folded absolute path: every scope that
  -- `candidates` offers can be a scope, and it is accepted for a row of the session unless it is
  -- not an existing directory.
  pub candidates-is_valid_for :
      (cwd : FilePath)
      → 0 < length root
      → IsFolded cwd
      → All
          (λ p.
            (is_scope_dir home tmp p ≡ true)
            × ((disk.is_dir p ≡ false) ⊎ (is_valid_for home tmp disk p root ≡ true)))
          (candidates home tmp disk root cwd)
  candidates-is_valid_for cwd pos folded =
      All-map _ _
        (λ p h. (
          h.1,
          elim (Bool-cases (disk.is_dir p)) [
            | inl there ↦ inr (near-is_valid_for p h.0 h.1 there)
            | inr gone ↦ inl gone
          ],
        ))
        _ (candidates-IsNear cwd pos folded)
