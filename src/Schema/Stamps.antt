-- ===== src/Schema/Stamps.antt =====
-- When a store opens, and what it is stamped (src/memory/schema_version.rs).
use linggen_memory.Prelude.{
  ℕ, zero, suc, ◌≤◌, ◌<◌, ◌≡◌, refl, ◌⊎◌, inl, inr, Bool, Bool-cases, true, false, Option, none,
  some, eqb, eqb_iff, ltb, arith,
}
use linggen_memory.Schema.{
  store_schema_version, min_readable_schema, layout_of, classify, stamp_layout, open_named,
  run_migrations,
}

-- A sidecar that this program can read: none, or a version between the bounds.
abbrev pub IsReadable : Option ℕ → Type 0
IsReadable none = Unit
IsReadable (some v) = (min_readable_schema ≤ v) × (v ≤ store_schema_version)

stamped :
    (legacy : Bool) (sidecar : Option ℕ)
    → stamp_layout true legacy sidecar ≡ (true, some (layout_of legacy))
unfolding stamp_layout
stamped legacy none = refl
stamped legacy (some v) = elim (Bool-cases (eqb v (layout_of legacy))) [
  | inl e ↦ let same = (eqb_iff v (layout_of legacy)).0 e in rw e (rw same refl)
  | inr e ↦ rw e refl
]

too_new_lem :
    (legacy : Bool) (v : ℕ)
    → store_schema_version < v
    → open_named true legacy (some v) ≡ (false, some v)
unfolding open_named classify
too_new_lem legacy v newer =
    let other : eqb v 2 ≡ false = ground (arith, newer) in
    let above : ltb 2 v ≡ true = ground (arith, newer) in rw other (rw above refl)

-- A store opens, when the sidecar can be written, if and only if its version is one that this program
-- reads or it has no sidecar, also if its layout is a legacy one; it is then stamped with the layout
-- that it has, which is 1 of a legacy layout and the current version else. A store that does not
-- open keeps its sidecar.
pub open_named_lem :
    (legacy : Bool) (sidecar : Option ℕ)
    → (IsReadable sidecar × (open_named true legacy sidecar ≡ (true, some (layout_of legacy))))
      ⊎ ((IsReadable sidecar → ⊥) × (open_named true legacy sidecar ≡ (false, sidecar)))
unfolding open_named classify run_migrations
open_named_lem legacy none = inl (tt, stamped legacy none)
open_named_lem legacy (some zero) = inr (λ h. omega (arith, h.0), refl)
open_named_lem legacy (some (suc zero)) = inl ((omega arith, omega arith), stamped legacy (some 1))
open_named_lem legacy (some (suc (suc zero))) =
    inl ((omega arith, omega arith), stamped legacy (some 2))
open_named_lem legacy (some (suc (suc (suc v)))) =
    inr (λ h. omega (arith, h.1), too_new_lem legacy (suc (suc (suc v))) (omega arith))
