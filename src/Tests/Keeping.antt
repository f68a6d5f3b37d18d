-- ===== src/Tests/Keeping.antt =====
-- The properties of the backups at concrete inputs.
use linggen_memory.Prelude.{
  ◌*◌, ◌≤◌, String, ◌==◌, if◌then◌else◌, ◌≡◌, refl, ◌⊎◌, true, Option, none, some, List, [], ◌∷◌,
  All, any, keep, length,
}
use linggen_memory.Types.{Instant}
use linggen_memory.Backups.{
  DirEntry, directory, file, daily_keep, day, surplus_dailies, dailies_in, prune,
}
use linggen_memory.Backups.Newest.{is_newer_kept}
use linggen_memory.Backups.Pruning
use linggen_memory.Backups.Pruning.{is_expired_at, is_snapshot_at}

abbrev snapshots : List String
snapshots =
    "store-18.ndjson" ∷ "store-11.ndjson" ∷ "store-12.ndjson" ∷ "store-17.ndjson"
    ∷ "store-13.ndjson" ∷ "store-14.ndjson" ∷ "store-15.ndjson" ∷ "store-16.ndjson" ∷ []

-- A parser that reads one stamp.
abbrev one_stamp : String → String → Option Instant
one_stamp s format = if s == "20261004T151910Z" then some day else none

abbrev no_date : String → String → Option Instant
no_date s format = none

abbrev backups : List (Option DirEntry)
backups =
    some (record { name = "schema-v2-20261004T151910Z"; file_type = directory; modified = none })
    ∷ none
    ∷ some (record { name = "store-18.ndjson"; file_type = file; modified = none })
    ∷ some (record { name = "README"; file_type = file; modified = none })
    ∷ []

prune_lem_example :
    All
      (λ name.
        (any (is_expired_at one_stamp no_date (16 * day) name) backups ≡ true)
        ⊎ ((any (is_snapshot_at name) backups ≡ true)
            × (daily_keep
                ≤ length (
                    keep
                      (is_newer_kept (surplus_dailies (dailies_in backups)) name)
                      (dailies_in backups)))))
      (prune one_stamp no_date (some backups) (16 * day) (λ path. true))
unfolding linggen_memory.Backups.migration_kind linggen_memory.Backups.is_daily
    linggen_memory.Text.strip_text linggen_memory.Text.Words.ends_with
prune_lem_example = Pruning.prune_lem one_stamp no_date (16 * day) backups (λ path. true) (refl, tt)

old_goes :
    prune one_stamp no_date (some backups) (16 * day) (λ path. true)
    ≡ "schema-v2-20261004T151910Z" ∷ []
unfolding prune linggen_memory.Backups.migration_kind linggen_memory.Backups.is_daily
    linggen_memory.Text.strip_text surplus_dailies linggen_memory.Text.Words.ends_with
old_goes = refl
