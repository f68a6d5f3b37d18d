-- ===== src/Backups/Pruning.antt =====
-- What one run of `prune` removes (src/memory/backups.rs).
use linggen_memory.Prelude.{
  ◌-◌, ◌≤◌, String, ◌==◌, eq_iff, ◌≡◌, refl, ◌⊎◌, inl, inr, Bool, Bool-cases, true, false, ◌&&◌,
  Option, none, some, List, [], ◌∷◌, any, keep, All, All-append, All-keep, All-map, All-take,
  All-sort_by, sort_by, length, is_some, arith, if◌then◌else◌,
}
use linggen_memory.Types.{Instant}
use linggen_memory.Text.{strip_text}
use linggen_memory.Text.Words.{ends_with}
use linggen_memory.Text.Order.{text_le}
use linggen_memory.Backups.{
  FileType, directory, file, link, is_file, is_daily, is_daily_file, DirEntry, is_directory,
  migration_kind, migration_keep, daily_keep, taken_at, is_before_cutoff, migrations_in, dailies_in,
  expired_migrations, surplus_dailies, prune,
}
use linggen_memory.Backups.Newest.{IsDistinct, all_both, is_newer_kept, surplus_dailies_lem}

-- A plain file, neither a directory nor a link.
abbrev pub is_plain : FileType → Bool
is_plain directory = false
is_plain file = true
is_plain link = false

-- The entry is a plain file of that name, and the name is `store-….ndjson`.
abbrev pub is_snapshot_at : String → Option DirEntry → Bool
is_snapshot_at name none = false
is_snapshot_at name (some e) =
    (e.name == name)
    && is_plain e.file_type
    && (is_some (strip_text "store-" name) && ends_with ".ndjson" name)

plain_file : (t : FileType) → is_file t ≡ is_plain t
plain_file directory = refl
plain_file file = refl
plain_file link = refl

daily_here :
    (e : DirEntry) (es : List (Option DirEntry))
    → is_daily_file e ≡ true
    → any (is_snapshot_at e.name) (some e ∷ es) ≡ true
unfolding is_daily
daily_here e es daily = ground (arith, daily, plain_file e.file_type, (eq_iff e.name e.name).1 refl)

-- Every daily snapshot stands in the directory as a plain file of such a name.
dailies_lem :
    (entries : List (Option DirEntry))
    → All (λ name. any (is_snapshot_at name) entries ≡ true) (dailies_in entries)
dailies_lem [] = tt
dailies_lem (none ∷ es) = dailies_lem es
dailies_lem (some e ∷ es) =
    let later =
      All-map (λ name. any (is_snapshot_at name) es ≡ true)
        (λ name. any (is_snapshot_at name) (some e ∷ es) ≡ true) (λ name k. ground (arith, k))
        (dailies_in es) (dailies_lem es) in
    elim (Bool-cases (is_daily_file e)) [
      | inl daily ↦ rw daily (daily_here e es daily, later)
      | inr other ↦ rw other later
    ]

surplus_lem :
    (entries : List (Option DirEntry))
    → All (λ name. any (is_snapshot_at name) entries ≡ true) (surplus_dailies (dailies_in entries))
unfolding surplus_dailies
surplus_lem entries =
    All-take _ (length (dailies_in entries) - daily_keep) (sort_by text_le (dailies_in entries))
      (All-sort_by text_le _ (dailies_in entries) (dailies_lem entries))

module _ (parse_time parse_date : String → String → Option Instant) (now : Instant) where
  -- A directory of a registered kind, taken longer ago than such backups are kept.
  abbrev pub is_expired : DirEntry → Bool
  is_expired e =
      (is_directory e.file_type && is_some (migration_kind e.name))
      && is_before_cutoff parse_time parse_date (taken_at parse_time parse_date e)
          (now - migration_keep)

  abbrev pub is_expired_at : String → Option DirEntry → Bool
  is_expired_at name none = false
  is_expired_at name (some e) = (e.name == name) && is_expired e

  any_later :
      (e : Option DirEntry) (es : List (Option DirEntry)) (names : List String)
      → All (λ name. any (is_expired_at name) es ≡ true) names
      → All (λ name. any (is_expired_at name) (e ∷ es) ≡ true) names
  any_later e es names h =
      All-map (λ name. any (is_expired_at name) es ≡ true)
        (λ name. any (is_expired_at name) (e ∷ es) ≡ true) (λ name k. ground (arith, k)) names h

  is_old : DirEntry → Bool
  is_old e =
      is_before_cutoff parse_time parse_date (taken_at parse_time parse_date e)
        (now - migration_keep)

  expired_here :
      (e : DirEntry) (es : List (Option DirEntry))
      → (is_directory e.file_type && is_some (migration_kind e.name)) ≡ true
      → is_old e ≡ true
      → any (is_expired_at e.name) (some e ∷ es) ≡ true
  unfolding is_old
  expired_here e es ours old = ground (arith, ours, old, (eq_iff e.name e.name).1 refl)

  all_picked :
      (e : DirEntry) (rest : List DirEntry) (P : String → Type 0) (ours : Bool)
      → (ours ≡ true → is_old e ≡ true → P e.name)
      → All P (expired_migrations parse_time parse_date rest now)
      → All P (expired_migrations parse_time parse_date (if ours then e ∷ rest else rest) now)
  unfolding expired_migrations is_old
  all_picked e rest P false f h = h
  all_picked e rest P true f h = elim (Bool-cases (is_old e)) [
    | inl old ↦ rw old (f refl old, h)
    | inr young ↦ rw young h
  ]

  expired_lem :
      (entries : List (Option DirEntry))
      → All
          (λ name. any (is_expired_at name) entries ≡ true)
          (expired_migrations parse_time parse_date (migrations_in entries) now)
  unfolding expired_migrations
  expired_lem [] = tt
  expired_lem (none ∷ es) = expired_lem es
  expired_lem (some e ∷ es) =
      all_picked e (migrations_in es) (λ name. any (is_expired_at name) (some e ∷ es) ≡ true)
        (is_directory e.file_type && is_some (migration_kind e.name)) (expired_here e es)
        (any_later (some e) es _ (expired_lem es))

  -- If the daily snapshots have different names: whatever a run removes is a migration backup older
  -- than such are kept, or a daily snapshot (a plain file of the directory, named store-….ndjson) that
  -- seven others with names not before its own outlast.
  pub prune_lem :
      (entries : List (Option DirEntry)) (remove : String → Bool)
      → IsDistinct (dailies_in entries)
      → All
          (λ name.
            (any (is_expired_at name) entries ≡ true)
            ⊎ ((any (is_snapshot_at name) entries ≡ true)
                × (daily_keep
                    ≤ length (
                        keep
                          (is_newer_kept (surplus_dailies (dailies_in entries)) name)
                          (dailies_in entries)))))
          (prune parse_time parse_date (some entries) now remove)
  unfolding prune
  prune_lem entries remove h = All-keep _ remove _ (
      All-append _ (expired_migrations parse_time parse_date (migrations_in entries) now)
        (surplus_dailies (dailies_in entries))
        (All-map _ _ (λ name x. inl x) _ (expired_lem entries))
        (all_both _ _ _ (surplus_dailies (dailies_in entries)) (λ name x y. inr (x, y))
          (surplus_lem entries) (surplus_dailies_lem (dailies_in entries) h).1))
