-- ===== src/Scope/Expand.antt =====
-- What `expand` returns is absolute and folded, so every path that the daemon compares is.
use linggen_memory.Prelude.{
  String, ◌≡◌, ◌∙◌, sym, subst, append-nil, append_assoc, Bool-cases, inl, inr, true, some, [], ◌∷◌,
  ◌++◌, arith, All, All-append,
}
use linggen_memory.Text.{trim}
use linggen_memory.Paths.{
  Component, root_dir, cur_dir, parent_dir, normal, FilePath, is_absolute, init, parent, pop, push,
}
use linggen_memory.Scope.{normalize_from, normalize, place_of, expand}

abbrev pub IsName : Component → Type 0
IsName (normal s) = Unit
IsName _ = ⊥

-- The root, then names only: no `.` and no `..`.
abbrev pub IsFolded : FilePath → Type 0
IsFolded (root_dir ∷ p) = All IsName p
IsFolded _ = ⊥

All-init : (p : FilePath) → All IsName p → All IsName (init p)
All-init [] h = tt
All-init (c ∷ []) h = tt
All-init (c ∷ d ∷ p) h = (h.0, All-init (d ∷ p) h.1)

pop-IsFolded : (p : FilePath) → IsFolded p → IsFolded (pop p)
unfolding pop parent
pop-IsFolded (root_dir ∷ []) h = tt
pop-IsFolded (root_dir ∷ c ∷ p) h = All-init (c ∷ p) h
pop-IsFolded [] h = h
pop-IsFolded (cur_dir ∷ p) h = absurd h
pop-IsFolded (parent_dir ∷ p) h = absurd h
pop-IsFolded (normal s ∷ p) h = absurd h

push-IsFolded : (s : String) (p : FilePath) → IsFolded p → IsFolded (push p (normal s))
push-IsFolded s (root_dir ∷ p) h = All-append IsName p (normal s ∷ []) h (tt, tt)
push-IsFolded s [] h = h
push-IsFolded s (cur_dir ∷ p) h = absurd h
push-IsFolded s (parent_dir ∷ p) h = absurd h
push-IsFolded s (normal t ∷ p) h = absurd h

normalize_from-IsFolded : (out p : FilePath) → IsFolded out → IsFolded (normalize_from out p)
unfolding normalize_from
normalize_from-IsFolded out [] h = h
normalize_from-IsFolded out (root_dir ∷ p) h = normalize_from-IsFolded (root_dir ∷ []) p tt
normalize_from-IsFolded out (cur_dir ∷ p) h = normalize_from-IsFolded out p h
normalize_from-IsFolded out (parent_dir ∷ p) h =
    normalize_from-IsFolded (pop out) p (pop-IsFolded out h)
normalize_from-IsFolded out (normal s ∷ p) h =
    normalize_from-IsFolded (push out (normal s)) p (push-IsFolded s out h)

normalize-IsFolded : (p : FilePath) → is_absolute p ≡ true → IsFolded (normalize p)
unfolding normalize normalize_from
normalize-IsFolded [] h = absurd (cc)
normalize-IsFolded (root_dir ∷ p) h = normalize_from-IsFolded (root_dir ∷ []) p tt
normalize-IsFolded (cur_dir ∷ p) h = absurd (cc)
normalize-IsFolded (parent_dir ∷ p) h = absurd (cc)
normalize-IsFolded (normal s ∷ p) h = absurd (cc)

-- Folding again changes nothing.
normalize_from_of_names : (out p : FilePath) → All IsName p → normalize_from out p ≡ out ++ p
unfolding normalize_from
normalize_from_of_names out [] h = sym (append-nil out)
normalize_from_of_names out (normal s ∷ p) h =
    normalize_from_of_names (out ++ normal s ∷ []) p h.1 ∙ append_assoc out (normal s ∷ []) p
normalize_from_of_names out (root_dir ∷ p) h = absurd h.0
normalize_from_of_names out (cur_dir ∷ p) h = absurd h.0
normalize_from_of_names out (parent_dir ∷ p) h = absurd h.0

normalize_of_IsFolded : (p : FilePath) → IsFolded p → normalize p ≡ p
unfolding normalize normalize_from
normalize_of_IsFolded (root_dir ∷ p) h = normalize_from_of_names (root_dir ∷ []) p h
normalize_of_IsFolded [] h = absurd h
normalize_of_IsFolded (cur_dir ∷ p) h = absurd h
normalize_of_IsFolded (parent_dir ∷ p) h = absurd h
normalize_of_IsFolded (normal s ∷ p) h = absurd h

expand_split :
    (raw : String) (home q : FilePath)
    → expand raw home ≡ some q
    → let p = place_of (trim raw) home in (is_absolute p ≡ true) × (normalize p ≡ q)
unfolding expand
expand_split raw home q h = elim (Bool-cases (is_absolute (place_of (trim raw) home))) [
  | inl abs ↦ (abs, ground (arith, h, abs))
  | inr rel ↦ absurd (ground (arith, h, rel))
]

-- Whatever text a host sends, and whatever the home directory is: a path that `expand` returns is
-- the root followed by names (no `.`, no `..`), and folding it once more changes nothing.
pub expand-IsFolded :
    (raw : String) (home q : FilePath) → expand raw home ≡ some q → IsFolded q × (normalize q ≡ q)
expand-IsFolded raw home q h =
    let (abs, e) = expand_split raw home q h in
    let folded = subst IsFolded e (normalize-IsFolded (place_of (trim raw) home) abs) in
    (folded, normalize_of_IsFolded q folded)
