-- ===== src/Schema.antt =====
-- The layout version of the store (src/memory/schema_version.rs) and the part of opening a table that
-- minds it (`open_named` of src/memory/store.rs). The sidecar is the number that it parses to, `none`
-- when it is missing or no number; whether a write of it succeeds is an argument, as is whether some
-- table of the store has the old layout.
pub mod Stamps
use linggen_memory.Prelude.{
  ℕ, zero, suc, ◌+◌, ◌-◌, Bool, true, false, not, ◌&&◌, Option, none, some, eqb, ltb, if◌then◌else◌,
}

abbrev pub store_schema_version : ℕ
store_schema_version = 2

abbrev pub min_readable_schema : ℕ
min_readable_schema = 1

abbrev pub legacy_layout : ℕ
legacy_layout = 1

pub data Compat : Type 0 where
  current adopt : Compat
  migrate too_old too_new : ℕ → Compat

abbrev pub classify_version : ℕ → Compat
classify_version v =
    if eqb v store_schema_version
    then current
    else if ltb store_schema_version v
    then too_new v
    else if ltb v min_readable_schema
    then too_old v
    else migrate v

unfoldable pub classify : Option ℕ → Compat
classify none = adopt
classify (some v) = classify_version v

-- The one step that is registered, 1 → 2, waits for an explicit request.
abbrev pub is_registered : ℕ → Bool
is_registered v = eqb v 1

-- The steps from `v`, so many of them; `false` is an error.
abbrev pub steps_run : ℕ → ℕ → Bool
steps_run v zero = true
steps_run v (suc n) = let rest = steps_run (suc v) n in if is_registered v then rest else false

unfoldable pub run_migrations : ℕ → Bool
run_migrations from = steps_run from (store_schema_version - from)

abbrev pub write_version : Bool → ℕ → Option ℕ → Bool × Option ℕ
write_version true v sidecar = (true, some v)
write_version false v sidecar = (false, sidecar)

abbrev pub is_version : Option ℕ → ℕ → Bool
is_version none v = false
is_version (some w) v = eqb w v

abbrev pub layout_of : Bool → ℕ
layout_of legacy = if legacy then legacy_layout else store_schema_version

unfoldable pub stamp_layout : Bool → Bool → Option ℕ → Bool × Option ℕ
stamp_layout saved legacy sidecar =
    if is_version sidecar (layout_of legacy)
    then (true, sidecar)
    else write_version saved (layout_of legacy) sidecar

unfoldable pub stamp_current : Bool → Option ℕ → Bool × Option ℕ
stamp_current saved sidecar =
    if is_version sidecar store_schema_version
    then (true, sidecar)
    else write_version saved store_schema_version sidecar

-- `refuse_message` has a message for these.
abbrev pub is_refused : Compat → Bool
is_refused (too_new v) = true
is_refused (too_old v) = true
is_refused current = false
is_refused adopt = false
is_refused (migrate v) = false

abbrev pub migrated : Compat → Bool
migrated (migrate from) = run_migrations from
migrated current = true
migrated adopt = true
migrated (too_new v) = true
migrated (too_old v) = true

abbrev pub migrate_and_stamp : Compat → Bool → Bool → Option ℕ → Bool × Option ℕ
migrate_and_stamp compat saved any_legacy sidecar =
    if migrated compat then stamp_layout saved any_legacy sidecar else (false, sidecar)

-- Whether the store opens, and the sidecar then.
unfoldable pub open_named : Bool → Bool → Option ℕ → Bool × Option ℕ
unfolding classify stamp_layout run_migrations
open_named saved any_legacy sidecar =
    if is_refused (classify sidecar)
    then (false, sidecar)
    else migrate_and_stamp (classify sidecar) saved any_legacy sidecar
