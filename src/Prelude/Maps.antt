-- ===== src/Prelude/Maps.antt =====
-- Maps with text keys as association lists (the standard library's `HashMap` and `BTreeMap`).
use Prim.Native.String.{String}
use mathlib.Core.Path.{◌≡◌, refl, subst}
use mathlib.Core.Bool.{Bool}
use mathlib.Core.Logic.{inl, inr}
use mathlib.Core.Option.{Option, none, some}
use mathlib.Core.List.{List, [], ◌∷◌}
use native.Mathlib.Omega.{arith}
use text.Mathlib.Text.{◌==◌}
use text.Mathlib.TextEquality.{eq_iff}
use linggen_memory.Prelude.Tests.{if◌then◌else◌, Bool-cases}

-- A key may stand once; `lookup` takes the first.
abbrev pub Assoc {ℓ} : Type ℓ → Type ℓ
Assoc A = List (String × A)

module _ {ℓ} {A : Type ℓ} where
  unfoldable pub lookup : String → Assoc A → Option A
  lookup key [] = none
  lookup key ((k, x) ∷ m) = let later = lookup key m in if k == key then some x else later

  unfoldable pub insert : String → A → Assoc A → Assoc A
  insert k v [] = (k, v) ∷ []
  insert k v ((j, w) ∷ m) = let rest = insert k v m in if j == k then (k, v) ∷ m else (j, w) ∷ rest

  unfoldable pub remove : String → Assoc A → Assoc A
  remove gone [] = []
  remove gone ((key, w) ∷ m) =
      let rest = remove gone m in if key == gone then rest else (key, w) ∷ rest

  pub lookup-insert :
      (new k : String) (x : A) (m : Assoc A)
      → lookup k (insert new x m) ≡ (if new == k then some x else lookup k m)
  unfolding lookup insert
  lookup-insert new k x [] = refl
  lookup-insert new k x ((key, y) ∷ m) =
      ground (arith, lookup-insert new k x m, eq_iff key k, eq_iff key new, eq_iff new k)

  pub lookup-remove :
      (gone k : String) (m : Assoc A)
      → lookup k (remove gone m) ≡ (if gone == k then none else lookup k m)
  unfolding lookup remove
  lookup-remove gone k [] = ground arith
  lookup-remove gone k ((key, w) ∷ m) =
      ground (arith, eq_iff gone k, eq_iff key gone, eq_iff key k, lookup-remove gone k m)

  -- `Option::filter`.
  abbrev pub filter : (A → Bool) → Option A → Option A
  filter p none = none
  filter p (some x) = if p x then some x else none

  unfoldable pub retain : (A → Bool) → Assoc A → Assoc A
  retain p [] = []
  retain p ((k, x) ∷ m) = let rest = retain p m in if p x then (k, x) ∷ rest else rest

  -- Each key stands once.
  abbrev pub IsMap : Assoc A → Type ℓ
  IsMap [] = Unit
  IsMap ((k, x) ∷ m) = (lookup k m ≡ none) × IsMap m

  lookup-retain_absent :
      (p : A → Bool) (k : String) (m : Assoc A) → lookup k m ≡ none → lookup k (retain p m) ≡ none
  unfolding lookup retain
  lookup-retain_absent p k [] h = refl
  lookup-retain_absent p k ((key, x) ∷ m) h = ground (arith, h, lookup-retain_absent p k m)

  pub lookup-retain :
      (p : A → Bool) (k : String) (m : Assoc A)
      → IsMap m
      → lookup k (retain p m) ≡ filter p (lookup k m)
  unfolding lookup retain
  lookup-retain p k [] h = refl
  lookup-retain p k ((key, x) ∷ m) h =
      ground (arith, eq_iff key k, lookup-retain p k m h.1, lookup-retain_absent p key m h.0)

  pub retain-IsMap : (p : A → Bool) (m : Assoc A) → IsMap m → IsMap (retain p m)
  unfolding retain
  retain-IsMap p [] h = tt
  retain-IsMap p ((key, x) ∷ m) h = elim (Bool-cases (p x)) [
    | inl e ↦ rw e (lookup-retain_absent p key m h.0, retain-IsMap p m h.1)
    | inr e ↦ rw e (retain-IsMap p m h.1)
  ]

  pub insert-IsMap : (k : String) (x : A) (m : Assoc A) → IsMap m → IsMap (insert k x m)
  unfolding insert lookup
  insert-IsMap k x [] h = (refl, tt)
  insert-IsMap k x ((key, y) ∷ m) h = elim (Bool-cases (key == k)) [
    | inl e ↦ rw e (subst (λ j. lookup j m ≡ none) ((eq_iff key k).0 e) h.0, h.1)
    | inr e ↦ rw e (
      ground (arith, lookup-insert k key x m, eq_iff k key, eq_iff key k, e, h.0),
      insert-IsMap k x m h.1,
    )
  ]

  pub remove-IsMap : (k : String) (m : Assoc A) → IsMap m → IsMap (remove k m)
  unfolding remove
  remove-IsMap k [] h = tt
  remove-IsMap k ((key, y) ∷ m) h = elim (Bool-cases (key == k)) [
    | inl e ↦ rw e (remove-IsMap k m h.1)
    | inr e ↦ rw e (ground (arith, lookup-remove k key m, h.0), remove-IsMap k m h.1)
  ]

pub ruleset assoc_laws = (lookup-insert, lookup-remove)
