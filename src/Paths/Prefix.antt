-- ===== src/Paths/Prefix.antt =====
-- Equality of paths and the prefix order.
use linggen_memory.Prelude.{
  ◌≤◌, eq_iff, ◌≡◌, ◌↔◌, ◌∙◌, refl, sym, ap, inl, inr, true, some, [], ◌∷◌, ◌++◌, arith, length,
  Option-cases, append_assoc, append-nil, length-append,
}
use linggen_memory.Paths.{
  Component, root_dir, cur_dir, parent_dir, normal, FilePath, comp_eq, path_eq, strip_prefix,
  starts_with,
}

pub comp_eq_iff : (c d : Component) → (comp_eq c d ≡ true) ↔ (c ≡ d)
comp_eq_iff root_dir d = ground arith
comp_eq_iff cur_dir d = ground arith
comp_eq_iff parent_dir d = ground arith
comp_eq_iff (normal a) root_dir = ground arith
comp_eq_iff (normal a) cur_dir = ground arith
comp_eq_iff (normal a) parent_dir = ground arith
comp_eq_iff (normal a) (normal b) = ground (arith, eq_iff a b)

pub comp_eq_refl : (c : Component) → comp_eq c c ≡ true
comp_eq_refl c = (comp_eq_iff c c).1 refl

pub path_eq_iff : (p q : FilePath) → (path_eq p q ≡ true) ↔ (p ≡ q)
path_eq_iff [] [] = ground arith
path_eq_iff [] (d ∷ q) = ground arith
path_eq_iff (c ∷ p) [] = ground arith
path_eq_iff (c ∷ p) (d ∷ q) = ground (arith, comp_eq_iff c d, path_eq_iff p q)

-- `strip_prefix` finds exactly the rest after the base.
pub strip_prefix_iff :
    (p base rest : FilePath) → (strip_prefix p base ≡ some rest) ↔ (p ≡ base ++ rest)
unfolding strip_prefix
strip_prefix_iff p [] rest = ground arith
strip_prefix_iff [] (d ∷ q) rest = ground arith
strip_prefix_iff (c ∷ p) (d ∷ q) rest = ground (arith, comp_eq_iff c d, strip_prefix_iff p q rest)

abbrev pub IsPrefix : FilePath → FilePath → Type 0
IsPrefix base p = (rest : FilePath) × (base ++ rest ≡ p)

pub starts_with_iff : (p base : FilePath) → (starts_with p base ≡ true) ↔ IsPrefix base p
unfolding starts_with
starts_with_iff p base = (
  λ h. elim (Option-cases (strip_prefix p base)) [
    | inl gone ↦ absurd (ground (arith, h, gone))
    | inr (rest, found) ↦ (rest, sym ((strip_prefix_iff p base rest).0 found))
  ],
  λ (rest, e). rw ((strip_prefix_iff p base rest).1 (sym e)),
)

pub IsPrefix-refl : (p : FilePath) → IsPrefix p p
IsPrefix-refl p = ([], append-nil p)

pub IsPrefix-trans : (p q r : FilePath) → IsPrefix p q → IsPrefix q r → IsPrefix p r
IsPrefix-trans p q r (s, e) (t, f) = (s ++ t, sym (append_assoc p s t) ∙ ap (λ l. l ++ t) e ∙ f)

pub IsPrefix-nil : (p : FilePath) → IsPrefix [] p
IsPrefix-nil p = (p, refl)

-- Prefixes of one path are comparable.
pub IsPrefix-total :
    (p q r : FilePath) → IsPrefix p r → IsPrefix q r → length p ≤ length q → IsPrefix p q
IsPrefix-total [] q r h k le = (q, refl)
IsPrefix-total (c ∷ p) [] r h k le = absurd (omega arith)
IsPrefix-total (c ∷ p) (d ∷ q) [] (s, e) k le = cc
IsPrefix-total (c ∷ p) (d ∷ q) (x ∷ r) (s, e) (t, f) le =
    let (u, g) = IsPrefix-total p q r (s, ground arith) (t, ground arith) (omega arith) in
    (u, ground arith)

pub length-IsPrefix : (p q : FilePath) → IsPrefix p q → length p ≤ length q
length-IsPrefix p q (r, e) = omega (arith, length-append p r, ap length e)
