-- ===== src/Paths/Ancestors.antt =====
-- The parents of a path are its proper prefixes.
use linggen_memory.Prelude.{
  ℕ, zero, suc, ◌≡◌, refl, ap, some, [], ◌∷◌, ◌++◌, arith, length, Option-cases, All, All-map, inl,
  inr, length-append,
}
use linggen_memory.Paths.{
  Component, root_dir, cur_dir, parent_dir, normal, FilePath, init, parent, ancestors_from,
  ancestors,
}
use linggen_memory.Paths.Prefix.{IsPrefix, IsPrefix-refl, IsPrefix-trans}

init_lem : (c : Component) (p : FilePath) → (d : Component) × (init (c ∷ p) ++ d ∷ [] ≡ c ∷ p)
init_lem c [] = (c, refl)
init_lem c (x ∷ p) = let (d, e) = init_lem x p in (d, ap (λ l. c ∷ l) e)

-- A parent is the path without its last component.
pub parent_lem : (p q : FilePath) → parent p ≡ some q → (d : Component) × (q ++ d ∷ [] ≡ p)
unfolding parent
parent_lem [] q h = absurd (cc)
parent_lem (root_dir ∷ []) q h = absurd (cc)
parent_lem (root_dir ∷ x ∷ p) q h = let (d, e) = init_lem root_dir (x ∷ p) in (d, ground (arith, e))
parent_lem (cur_dir ∷ p) q h = let (d, e) = init_lem cur_dir p in (d, ground (arith, e))
parent_lem (parent_dir ∷ p) q h = let (d, e) = init_lem parent_dir p in (d, ground (arith, e))
parent_lem (normal s ∷ p) q h = let (d, e) = init_lem (normal s) p in (d, ground (arith, e))

pub length-parent : (p q : FilePath) → parent p ≡ some q → suc (length q) ≡ length p
length-parent p q h =
    let (d, e) = parent_lem p q h in omega (arith, length-append q (d ∷ []), ap length e)

pub IsPrefix-parent : (p q : FilePath) → parent p ≡ some q → IsPrefix q p
IsPrefix-parent p q h = let (d, e) = parent_lem p q h in (d ∷ [], e)

pub ancestors_from-IsPrefix : (n : ℕ) (p : FilePath) → All (λ a. IsPrefix a p) (ancestors_from n p)
unfolding ancestors_from
ancestors_from-IsPrefix zero p = (IsPrefix-refl p, tt)
ancestors_from-IsPrefix (suc n) p = elim (Option-cases (parent p)) [
  | inl top ↦ rw top (IsPrefix-refl p, tt)
  | inr (q, up) ↦ rw up (
    IsPrefix-refl p,
    All-map _ _ (λ a h. IsPrefix-trans a q p h (IsPrefix-parent p q up)) (ancestors_from n q)
        (ancestors_from-IsPrefix n q),
  )
]

pub ancestors-IsPrefix : (p : FilePath) → All (λ a. IsPrefix a p) (ancestors p)
unfolding ancestors
ancestors-IsPrefix p = ancestors_from-IsPrefix (length p) p
