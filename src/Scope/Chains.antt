-- ===== src/Scope/Chains.antt =====
-- The directories above a session that hold rows for it, and the scopes it may write to.
use linggen_memory.Prelude.{
  ℕ, zero, suc, ◌<◌, String, ◌≡◌, ◌≢◌, ◌∙◌, refl, sym, ap, Bool, Bool-cases, inl, inr, true, Option,
  not, none, some, List, [], ◌∷◌, ◌++◌, ◌&&◌, arith, length, Option-cases, All, All-map, is_some,
  keep, take_while, drop, All-keep, All-take_while, append_assoc,
}
use linggen_memory.Paths
use linggen_memory.Paths.{
  Component, FilePath, parent, starts_with, strip_prefix, path_eq, push, comp_text, ancestors_from,
}
use linggen_memory.Paths.Prefix.{
  IsPrefix, IsPrefix-trans, starts_with_iff, strip_prefix_iff, path_eq_iff, length-IsPrefix,
}
use linggen_memory.Paths.Ancestors.{
  ancestors-IsPrefix, ancestors_from-IsPrefix, IsPrefix-parent, length-parent,
}
use linggen_memory.Scope
use linggen_memory.Scope.{
  skills, skill_dir, is_scope_dir, index_chain, find_root, git_above, Disk, is_valid_for,
}

-- What a filter keeps has passed its test.
module _ {ℓ κ} {A : Type ℓ} (P : A → Type κ) (p : A → Bool) where
  All-keep_test : ((a : A) → p a ≡ true → P a) → (xs : List A) → All P (keep p xs)
  All-keep_test f [] = tt
  All-keep_test f (x ∷ xs) = elim (Bool-cases (p x)) [
    | inl e ↦ rw e (f x e, All-keep_test f xs)
    | inr e ↦ rw e (All-keep_test f xs)
  ]

  All-take_while_test : ((a : A) → p a ≡ true → P a) → (xs : List A) → All P (take_while p xs)
  All-take_while_test f [] = tt
  All-take_while_test f (x ∷ xs) = elim (Bool-cases (p x)) [
    | inl e ↦ rw e (f x e, All-take_while_test f xs)
    | inr e ↦ rw e tt
  ]

All-pair {ℓ κ μ} :
    {A : Type ℓ} (P : A → Type κ) (Q : A → Type μ) (xs : List A)
    → All P xs
    → All Q xs
    → All (λ a. P a × Q a) xs
All-pair P Q [] h k = tt
All-pair P Q (x ∷ xs) h k = ((h.0, k.0), All-pair P Q xs h.1 k.1)

-- A proper prefix: the path without one or more of its last components.
abbrev pub IsAbove : FilePath → FilePath → Type 0
IsAbove a p = IsPrefix a p × (length a < length p)

IsAbove-ancestors_from :
    (n : ℕ) (p : FilePath) → All (λ a. IsAbove a p) (drop 1 (ancestors_from n p))
unfolding ancestors_from
IsAbove-ancestors_from zero p = tt
IsAbove-ancestors_from (suc n) p = elim (Option-cases (parent p)) [
  | inl top ↦ rw top tt
  | inr (q, up) ↦ rw up (
      All-map _ _
        (λ a h. (
          IsPrefix-trans a q p h (IsPrefix-parent p q up),
          omega (arith, length-parent p q up, length-IsPrefix a q h),
        ))
        (ancestors_from n q) (ancestors_from-IsPrefix n q))
]

above : (p : FilePath) → All (λ a. IsAbove a p) (drop 1 (Paths.ancestors p))
unfolding Paths.ancestors
above p = IsAbove-ancestors_from (length p) p

module _ (home : FilePath) where
  skill_dir_of_rest :
      (p d : FilePath) (name : String)
      → skill_dir home p ≡ some (d, name)
      → (c : Component) × (rest : FilePath) × (p ≡ skills home ++ c ∷ rest)
        × (d ≡ skills home ++ c ∷ [])
        × (name ≡ comp_text c)
  unfolding skill_dir
  skill_dir_of_rest p d name h = split (strip_prefix p (skills home)) refl
    where
      split :
          (o : Option FilePath)
          → strip_prefix p (skills home) ≡ o
          → (c : Component) × (rest : FilePath) × (p ≡ skills home ++ c ∷ rest)
            × (d ≡ skills home ++ c ∷ [])
            × (name ≡ comp_text c)
      split none e = absurd (ground (arith, h, e))
      split (some []) e = absurd (ground (arith, h, e))
      split (some (c ∷ rest)) e = (
        c,
        rest,
        (strip_prefix_iff p (skills home) (c ∷ rest)).0 e,
        ground (arith, h, e),
        ground (arith, h, e),
      )

  -- The directory of a skill is a prefix of every path in it, and is its own skill's directory.
  pub skill_dir_sound :
      (p d : FilePath) (name : String)
      → skill_dir home p ≡ some (d, name)
      → IsPrefix d p × ((a : FilePath) → IsPrefix d a → skill_dir home a ≡ some (d, name))
  unfolding skill_dir
  skill_dir_sound p d name h =
      let (c, rest, whole, dir, named) = skill_dir_of_rest p d name h in
      (
        (rest, ap (λ x. x ++ rest) dir ∙ append_assoc (skills home) (c ∷ []) rest ∙ sym whole),
        λ a (r, e).
            let split : a ≡ skills home ++ c ∷ r =
              sym e ∙ ap (λ x. x ++ r) dir ∙ append_assoc (skills home) (c ∷ []) r in
            rw ((strip_prefix_iff a (skills home) (c ∷ r)).1 split, skill_dir)
              (ground (arith, dir, named)),
      )

module _ (home tmp : FilePath) where
  -- The parents that may hold rows about a root are proper prefixes of it, can be scopes, and are
  -- not the home directory.
  pub ancestors_sound :
      (root : FilePath)
      → All
          (λ a. IsAbove a root × ((is_scope_dir home tmp a ≡ true) × (a ≢ home)))
          (Scope.ancestors home tmp root)
  unfolding Scope.ancestors
  ancestors_sound root = elim (Bool-cases (is_some (skill_dir home root))) [
    | inl e ↦ rw e tt
    | inr e ↦
        let stays : FilePath → Bool = λ a. not (path_eq a home) && is_some (parent a) in
        let reached : All (λ a. IsAbove a root × (a ≢ home))
            (take_while stays (drop 1 (Paths.ancestors root))) =
          All-pair _ _ _ (All-take_while _ stays _ (above root)) (
            All-take_while_test (λ a. a ≢ home) stays
              (λ a t same. ground (arith, t, (path_eq_iff a home).1 same))
              (drop 1 (Paths.ancestors root))) in
        rw e (
          All-map _ _ (λ a h. (h.0.0, (h.1, h.0.1))) _
            (All-pair _ _ _ (All-keep _ (is_scope_dir home tmp) _ reached) (
              All-keep_test (λ a. is_scope_dir home tmp a ≡ true) (is_scope_dir home tmp) (λ a t. t)
                _)))
  ]

  index_chain_in_owner :
      (cwd : FilePath)
      → skill_dir home cwd ≡ none
      → index_chain home tmp cwd
        ≡ take_while (λ a. not (path_eq a home) && is_scope_dir home tmp a) (Paths.ancestors cwd)
  unfolding index_chain
  index_chain_in_owner cwd out = rw (out, index_chain) refl

  index_chain_in_skill :
      (cwd s : FilePath) (n : String)
      → skill_dir home cwd ≡ some (s, n)
      → index_chain home tmp cwd ≡ take_while (λ a. starts_with a s) (Paths.ancestors cwd)
  unfolding index_chain
  index_chain_in_skill cwd s n into = rw (into, index_chain) refl

  skill-is_scope_dir :
      (a d : FilePath) (n : String)
      → skill_dir home a ≡ some (d, n)
      → is_scope_dir home tmp a ≡ true
  unfolding is_scope_dir
  skill-is_scope_dir a d n into = rw into refl

  -- Whatever the session's directory: every directory of its chain is that directory or above it,
  -- and can be a scope.
  pub index_chain_sound :
      (cwd : FilePath)
      → All (λ a. IsPrefix a cwd × (is_scope_dir home tmp a ≡ true)) (index_chain home tmp cwd)
  index_chain_sound cwd = elim (Option-cases (skill_dir home cwd)) [
    | inl out ↦ rw (index_chain_in_owner cwd out) (
        All-pair _ _ _ (All-take_while _ _ _ (ancestors-IsPrefix cwd)) (
          All-take_while_test (λ a. is_scope_dir home tmp a ≡ true) _ (λ a t. ground (arith, t))
            (Paths.ancestors cwd)))
    | inr ((s, n), into) ↦ rw (index_chain_in_skill cwd s n into) (
        All-map _ _
          (λ a h. (h.0, skill-is_scope_dir a s n ((skill_dir_sound home cwd s n into).1 a h.1))) _
          (All-pair _ _ _ (All-take_while _ _ _ (ancestors-IsPrefix cwd)) (
            All-take_while_test (λ a. IsPrefix s a) _ (λ a t. (starts_with_iff a s).0 t)
              (Paths.ancestors cwd))))
  ]

  -- In a session of a skill, every directory of the chain is the skill's directory or below it, and
  -- belongs to the same skill.
  pub index_chain_sealed :
      (cwd dir : FilePath) (name : String)
      → skill_dir home cwd ≡ some (dir, name)
      → All (λ a. IsPrefix dir a × (skill_dir home a ≡ some (dir, name))) (index_chain home tmp cwd)
  index_chain_sealed cwd dir name into = rw (index_chain_in_skill cwd dir name into) (
      All-map _ _ (λ a h. (h, (skill_dir_sound home cwd dir name into).1 a h)) _
        (All-take_while_test (λ a. IsPrefix dir a) _ (λ a t. (starts_with_iff a dir).0 t)
          (Paths.ancestors cwd)))
