-- ===== src/Backups.antt =====
-- What is kept of the backups (src/memory/backups.rs). The dates are parsed by a third-party library;
-- its two parsers are parameters, and give microseconds. All paths lie in the one directory, so a
-- path is its name.
pub mod Newest
pub mod Pruning
use Prim.Native.String
use linggen_memory.Prelude.{
  ℕ, ◌+◌, ◌-◌, ◌*◌, String, ◌==◌, Bool, true, false, not, ◌&&◌, Option, none, some, List, [], ◌∷◌,
  ◌++◌, any, keep, find, map, take, length, ltb, is_some, or_else, if◌then◌else◌, sort_by,
}
use linggen_memory.Text.{strip_text}
use linggen_memory.Text.Words.{ends_with}
use linggen_memory.Text.Order.{text_le}
use linggen_memory.Types.{Instant}

abbrev pub schema_v2 : String
schema_v2 = "schema-v2"

abbrev pub migration_backup_kinds : List String
migration_backup_kinds = schema_v2 ∷ "scope-migration" ∷ []

abbrev pub day : ℕ
day = 86400000000

abbrev pub migration_keep : ℕ
migration_keep = 14 * day

abbrev pub daily_keep : ℕ
daily_keep = 7

pub data FileType : Type 0 where
  directory file link : FileType

pub record DirEntry : Type 0 where
  pub name : String
  pub file_type : FileType
  pub modified : Option Instant

abbrev pub is_directory : FileType → Bool
is_directory directory = true
is_directory _ = false

abbrev pub is_file : FileType → Bool
is_file file = true
is_file _ = false

abbrev pub stamp_after : String → String → Option String
stamp_after name kind = strip_text (String.◌++◌ kind "-") name

unfoldable pub migration_kind : String → Option String
migration_kind name = find (λ kind. is_some (stamp_after name kind)) migration_backup_kinds

unfoldable pub is_daily : String → Bool
is_daily name = is_some (strip_text "store-" name) && ends_with ".ndjson" name

abbrev pub contains : List String → String → Bool
contains names name = any (λ n. n == name) names

-- The newest so many stay: the names carry the date.
unfoldable pub surplus_dailies : List String → List String
surplus_dailies files = take (length files - daily_keep) (sort_by text_le files)

-- An entry whose metadata cannot be read, or whose name is no text, is `none`.
abbrev pub migrations_in : List (Option DirEntry) → List DirEntry
migrations_in [] = []
migrations_in (none ∷ es) = migrations_in es
migrations_in (some e ∷ es) =
    let rest = migrations_in es in
    if is_directory e.file_type && is_some (migration_kind e.name) then e ∷ rest else rest

abbrev pub is_daily_file : DirEntry → Bool
is_daily_file e =
    not (is_directory e.file_type && is_some (migration_kind e.name))
    && is_file e.file_type
    && is_daily e.name

abbrev pub dailies_in : List (Option DirEntry) → List String
dailies_in [] = []
dailies_in (none ∷ es) = dailies_in es
dailies_in (some e ∷ es) =
    let rest = dailies_in es in if is_daily_file e then e.name ∷ rest else rest

module _ (parse_time parse_date : String → String → Option Instant) where
  abbrev pub date_or : Option Instant → Option Instant → Option Instant
  date_or none other = other
  date_or (some t) other = some t

  unfoldable pub parse_stamp : String → Option Instant
  parse_stamp stamp =
      date_or (parse_time stamp "%Y%m%dT%H%M%SZ")
        (date_or (parse_date stamp "%Y-%m-%d") (parse_date stamp "%Y%m%d"))

  abbrev pub taken_on : Option String → DirEntry → Option Instant
  taken_on none e = none
  taken_on (some kind) e = date_or (parse_stamp (or_else (stamp_after e.name kind) "")) e.modified

  unfoldable pub taken_at : DirEntry → Option Instant
  unfolding parse_stamp
  taken_at e = taken_on (migration_kind e.name) e

  abbrev pub is_before_cutoff : Option Instant → Instant → Bool
  is_before_cutoff none cutoff = false
  is_before_cutoff (some t) cutoff = ltb t cutoff

  unfoldable pub expired_migrations : List DirEntry → Instant → List String
  unfolding taken_at
  expired_migrations dirs now =
      map (λ (e : DirEntry). e.name)
        (keep (λ (e : DirEntry). is_before_cutoff (taken_at e) (now - migration_keep)) dirs)

  -- What was removed. `remove` is whether the removal of a path succeeds.
  abbrev pub prune_in : Option (List (Option DirEntry)) → Instant → (String → Bool) → List String
  prune_in none now remove = []
  prune_in (some entries) now remove =
      keep remove
        (expired_migrations (migrations_in entries) now ++ surplus_dailies (dailies_in entries))

  unfoldable pub prune : Option (List (Option DirEntry)) → Instant → (String → Bool) → List String
  unfolding expired_migrations
  prune dir now remove = prune_in dir now remove
