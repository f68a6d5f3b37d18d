-- ===== src/Tests/Syncing.antt =====
-- The properties of a primary and its replica on tables that are lists of rows.
use linggen_memory.Prelude.{
  ◌||◌, ◌&&◌, is_some, false, String, ◌≡◌, refl, true, none, some, [], ◌∷◌, arith, if◌then◌else◌,
  replicate,
}
use linggen_memory.Types.{Memory, new, fact, user}
use linggen_memory.Tables.{row_tables}
use linggen_memory.Changes.{Op, Entry, ChangeLog, open_log, record_ids, page_after}
use linggen_memory.Changes.Latest.{occurs}
use linggen_memory.Changes.Recording.{IsValid}
use linggen_memory.Store.{TableName, semantic, episodic, Io, Node, attach_change_log}
use linggen_memory.Replica.{ReplicaFile, default, asked, finish}
use linggen_memory.Sync.{current, bodies, apply_rows, Replica, pull_all}
use linggen_memory.Store.{get_row}
use linggen_memory.Store.Reads.{same_table}
use linggen_memory.Store.Sweeps.{passes, ids_where, delete_each, delete_where, evict_expired}
use linggen_memory.Sync.Sweeps
use linggen_memory.Sync.Apply
use linggen_memory.Sync.Pending.{is_pending}
use linggen_memory.Sync.Follows
use linggen_memory.Sync.Follows.{Follows}
use linggen_memory.Sync.Interleave
use linggen_memory.Sync.Interleave.{System, Step, Reach}
use linggen_memory.Sync.Converge

abbrev disk : Io
disk = record { appended = true; rewritten = true }

abbrev disks : TableName → String → Io
disks w k = disk

abbrev row_a : Memory
row_a = new "a" 10 "tabs" fact user

abbrev row_b : Memory
row_b = new "b" 20 "spaces" fact user

-- A store with a row in each table, before its log is written.
abbrev unseeded : Node row_tables
unseeded = record { semantic = row_a ∷ []; episodic = row_b ∷ []; log = open_log none }

abbrev seeded : Node row_tables
seeded = attach_change_log row_tables disk disk unseeded

abbrev empty_node : Node row_tables
empty_node = record { semantic = []; episodic = []; log = open_log none }

abbrev linked : ReplicaFile
linked = finish "r" (some "t") none (asked "p:1" "r" default)

abbrev follower : Replica row_tables
follower = record { node = empty_node; file = linked }

unseeded-IsValid : IsValid unseeded.log
unfolding open_log
unseeded-IsValid = record { positive = omega arith; ascending = omega arith }

seeded-Follows : Follows row_tables seeded follower
unfolding open_log linggen_memory.Changes.needs_seed current linggen_memory.Tables.find_row asked
    finish default linggen_memory.Tables.row_ids
seeded-Follows =
    Converge.attach_change_log-Follows row_tables disk disk unseeded follower refl unseeded-IsValid
      (omega arith) refl (λ k. refl)

attach_change_log-Follows_example : Follows row_tables seeded follower
unfolding open_log linggen_memory.Changes.needs_seed current linggen_memory.Tables.find_row asked
    finish default linggen_memory.Tables.row_ids
attach_change_log-Follows_example =
    Converge.attach_change_log-Follows row_tables disk disk unseeded follower refl unseeded-IsValid
      (omega arith) refl (λ k. refl)

abbrev start : System row_tables
start = record { primary = seeded; replica = follower }

-- A page of one row, then a write of the primary, then a lost answer.
abbrev paged : System row_tables
paged = record start { replica = (Follows.pull row_tables disks "m" (some 1) 7 seeded follower).0 }

abbrev written : System row_tables
written = record paged {
  primary = linggen_memory.Store.upsert row_tables disk episodic row_a paged.primary;
}

-- A row that is new.
abbrev row_c : Memory
row_c = new "c" 30 "four columns" fact user

abbrev enlarged : System row_tables
enlarged = record written {
  primary = linggen_memory.Store.Edits.insert row_tables disk semantic row_c written.primary;
}

start-Reach : Reach row_tables disks "m" start enlarged
unfolding open_log attach_change_log linggen_memory.Changes.needs_seed linggen_memory.Tables.row_ids
    linggen_memory.Changes.record_ids linggen_memory.Changes.maybe_compact get_row
    linggen_memory.Tables.find_row linggen_memory.Store.upsert new
start-Reach =
    Interleave.next
      (Interleave.next (Interleave.next Interleave.here (Interleave.pulled start (some 1) 7))
        (Interleave.written paged disk episodic row_a (omega arith)))
      (Interleave.inserted written disk semantic row_c refl (omega arith))

Reach-Follows_example : Follows row_tables enlarged.primary enlarged.replica
Reach-Follows_example = Interleave.Reach-Follows row_tables disks "m" seeded-Follows start-Reach

seeded-IsValid : IsValid seeded.log
seeded-IsValid = seeded-Follows.valid

evict_expired_lem_example :
    ((v : TableName)
      → get_row row_tables v "a" (evict_expired row_tables disk semantic 15 seeded).0 ≡ (
          if same_table semantic v
            && passes row_tables
                (Sweeps.happened_before 15)
                (get_row row_tables semantic "a" seeded)
          then none
          else get_row row_tables v "a" seeded))
    × (is_pending (evict_expired row_tables disk semantic 15 seeded).0.log 2 "a" ≡ (
        is_pending seeded.log 2 "a"
        || passes row_tables (Sweeps.happened_before 15) (get_row row_tables semantic "a" seeded)))
unfolding open_log attach_change_log linggen_memory.Changes.needs_seed linggen_memory.Tables.row_ids
    linggen_memory.Changes.record_ids linggen_memory.Changes.maybe_compact ids_where
    linggen_memory.Tables.find_row new
evict_expired_lem_example =
    Sweeps.evict_expired_lem row_tables disk semantic 15 2 "a" seeded seeded-IsValid (omega arith)
      (omega arith)

evicts_old :
    is_some (get_row row_tables semantic "a" (evict_expired row_tables disk semantic 15 seeded).0)
    ≡ false
unfolding open_log attach_change_log linggen_memory.Changes.needs_seed linggen_memory.Tables.row_ids
    ids_where linggen_memory.Tables.find_row evict_expired delete_where delete_each get_row
    linggen_memory.Tables.drop_row new
evicts_old = refl

pull_all-copies_example :
    current row_tables "b"
      (pull_all row_tables disks "m"
        (replicate 3 (Converge.answer row_tables disks "m" (some 1) 7 seeded))
        follower).node
    ≡ current row_tables "b" seeded
unfolding open_log attach_change_log linggen_memory.Changes.needs_seed linggen_memory.Tables.row_ids
    linggen_memory.Changes.record_ids linggen_memory.Changes.maybe_compact asked finish default
    linggen_memory.Replica.upstream
pull_all-copies_example =
    Converge.pull_all-copies row_tables disks "m" (some 1) 7 3 seeded follower ("http://p:1", "t")
      "b" refl seeded-Follows (omega arith)

current-apply_rows_example :
    current row_tables "a" (
      apply_rows row_tables disks
        (bodies row_tables seeded seeded.log.entries).0
        (bodies row_tables seeded seeded.log.entries).1
        empty_node)
    ≡ (if occurs "a" seeded.log.entries
        then current row_tables "a" seeded
        else current row_tables "a" empty_node)
current-apply_rows_example =
    Apply.current-apply_rows row_tables disks seeded seeded.log.entries "a" empty_node
