-- ===== src/Sync/Interleave.antt =====
-- Every interleaving of the primary's writes with the replica's pulls, as a step relation.
use linggen_memory.Prelude.{ℕ, ◌+◌, ◌^◌, ◌<◌, String, ◌≡◌, Bool, List, map, length}
use linggen_memory.Types.{Memory, Instant}
use linggen_memory.Tables.{TableApi}
use linggen_memory.Store.{TableName, Io, Node, table_of, upsert, delete}
use linggen_memory.Store.{get_row}
use linggen_memory.Store.Edits.{
  MemoryPatch, apply, update, update_quiet, expire, rewrite_on, insert, insert_with_dedup_except,
}
use linggen_memory.Prelude.{Option, some, none}
use linggen_memory.Sync.{offline, failed, Replica, pull_page}
use linggen_memory.Store.Sweeps.{is_older, delete_where, evict_expired}
use linggen_memory.Paths.{FilePath}
use linggen_memory.Store.Filters.{Filters, matches}
use linggen_memory.Store.Queries.{forget}
use linggen_memory.Writes.Batch.{insert_rows, id_of}
use linggen_memory.Sync.Inserts.{
  IsFresh, named_rows, Follows-insert, Follows-insert_with_dedup_except, Follows-insert_rows,
  Follows-forget,
}
use linggen_memory.Sync.Sweeps.{swept, Follows-delete_where}
use linggen_memory.Sync.Follows.{Follows, Follows-upsert, Follows-delete, Follows-pull, pull}

module _ (db : TableApi) where
  -- The two machines as one system: the primary is written, the replica pulls or is not answered.
  pub record System : Type 0 where
    pub primary : Node db
    pub replica : Replica db

  pub data Step (io : TableName → String → Io) (model : String) : System → System → Type 0 where
    written :
        (s : System) (io' : Io) (w : TableName) (m : Memory)
        → s.primary.log.next_seq + 1 < 2 ^ 64
        → Step io model s (record s { primary = upsert db io' w m s.primary })
    deleted :
        (s : System) (io' : Io) (w : TableName) (id : String)
        → s.primary.log.next_seq + 1 < 2 ^ 64
        → Step io model s (record s { primary = (delete db io' w id s.primary).0 })
    updated :
        (s : System) (io' : Io) (w : TableName) (id : String) (patch : MemoryPatch) (at : Instant)
        → s.primary.log.next_seq + 1 < 2 ^ 64
        → Step io model s (record s { primary = (update db io' w id patch at s.primary).1 })
    patched :
        (s : System) (io' : Io) (w : TableName) (id : String) (patch : MemoryPatch)
        → s.primary.log.next_seq + 1 < 2 ^ 64
        → Step io model s (record s { primary = (update_quiet db io' w id patch s.primary).1 })
    expired :
        (s : System) (io' : Io) (w : TableName) (id successor : String) (at : Instant)
        → s.primary.log.next_seq + 1 < 2 ^ 64
        → Step io model s (record s { primary = (expire db io' w id successor at s.primary).1 })
    evicted :
        (s : System) (io' : Io) (w : TableName) (cutoff : Instant)
        → s.primary.log.next_seq + length (swept db w (is_older cutoff) s.primary) < 2 ^ 64
        → Step io model s (record s { primary = (evict_expired db io' w cutoff s.primary).0 })
    inserted :
        (s : System) (io' : Io) (w : TableName) (m : Memory)
        → get_row db w m.id s.primary ≡ none
        → s.primary.log.next_seq + 1 < 2 ^ 64
        → Step io model s (record s { primary = insert db io' w m s.primary })
    merged :
        (s : System) (io' : Io) (w : TableName) (m : Memory) (except : List String)
        → get_row db w m.id s.primary ≡ none
        → s.primary.log.next_seq + 1 < 2 ^ 64
        → Step io model s
            (record s { primary = (insert_with_dedup_except db io' w m except s.primary).1 })
    imported :
        (s : System) (io' : Io) (w : TableName) (ms : List Memory)
        → IsFresh db ms (table_of db w s.primary)
        → s.primary.log.next_seq + length (map id_of ms) < 2 ^ 64
        → Step io model s (record s { primary = insert_rows db io' w ms s.primary })
    swept_by :
        (s : System) (io' : Io) (w : TableName) (p : Memory → Bool)
        → s.primary.log.next_seq + length (swept db w p s.primary) < 2 ^ 64
        → Step io model s (record s { primary = (delete_where db io' w p s.primary).0 })
    forgotten :
        (s : System) (home tmp : FilePath) (like : String → String → Bool) (ios : String → Io)
        (io' : Io) (w : TableName) (g : Filters)
        → s.primary.log.next_seq + length (named_rows db home tmp like w g s.primary) < 2 ^ 64
        → s.primary.log.next_seq + length (swept db w (matches home tmp like g) s.primary) < 2 ^ 64
        → Step io model s (record s { primary = (forget db home tmp like ios io' w g s.primary).0 })
    pulled :
        (s : System) (limit : Option ℕ) (now : Instant)
        → Step io model s
            (record s { replica = (pull db io model limit now s.primary s.replica).0 })
    unanswered :
        (s : System) (now : Instant)
        → Step io model s (record s { replica = (pull_page db io model now offline s.replica).0 })
    refused :
        (s : System) (now : Instant) (why : String)
        → Step io model s
            (record s { replica = (pull_page db io model now (failed why) s.replica).0 })

  pub data Reach (io : TableName → String → Io) (model : String) (s : System)
      : System → Type 0 where
    here : Reach io model s s
    next : {t u : System} → Reach io model s t → Step io model t u → Reach io model s u

  module _ (io : TableName → String → Io) (model : String) where
    Follows-rewrite :
        (g : Memory → Memory) (o : Option Memory) (io' : Io) (w : TableName) (p : Node db)
        (r : Replica db)
        → p.log.next_seq + 1 < 2 ^ 64
        → Follows db p r
        → Follows db (rewrite_on db g o io' w p).1 r
    Follows-rewrite g none io' w p r room f = f
    Follows-rewrite g (some m) io' w p r room f = Follows-upsert db io' w (g m) p r room f

    Step-Follows :
        {s t : System}
        → Step io model s t
        → Follows db s.primary s.replica
        → Follows db t.primary t.replica
    unfolding pull_page update update_quiet expire evict_expired
    Step-Follows (written s io' w m room) f = Follows-upsert db io' w m s.primary s.replica room f
    Step-Follows (deleted s io' w id room) f = Follows-delete db io' w id s.primary s.replica room f
    Step-Follows (updated s io' w id patch at room) f =
        Follows-rewrite (λ m. record (apply patch m) { updated_at = some at })
          (get_row db w id s.primary) io' w s.primary s.replica room f
    Step-Follows (patched s io' w id patch room) f =
        Follows-rewrite (apply patch) (get_row db w id s.primary) io' w s.primary s.replica room f
    Step-Follows (expired s io' w id successor at room) f =
        Follows-rewrite (λ m. record m { expired_at = some at; superseded_by = some successor })
          (get_row db w id s.primary) io' w s.primary s.replica room f
    Step-Follows (evicted s io' w cutoff room) f =
        Follows-delete_where db io' w (is_older cutoff) s.primary s.replica room f
    Step-Follows (inserted s io' w m fresh room) f =
        Follows-insert db io' w m s.primary s.replica fresh room f
    Step-Follows (merged s io' w m except fresh room) f =
        Follows-insert_with_dedup_except db io' w m except s.primary s.replica fresh room f
    Step-Follows (imported s io' w ms fresh room) f =
        Follows-insert_rows db io' w ms s.primary s.replica fresh room f
    Step-Follows (swept_by s io' w p room) f =
        Follows-delete_where db io' w p s.primary s.replica room f
    Step-Follows (forgotten s home tmp like ios io' w g room room') f =
        Follows-forget db home tmp like ios io' w g s.primary s.replica room room' f
    Step-Follows (pulled s limit now) f = Follows-pull db io model limit now s.primary s.replica f
    Step-Follows (unanswered s now) f = record {
      valid = f.valid;
      cursor_in = f.cursor_in;
      agrees = f.agrees;
    }
    Step-Follows (refused s now why) f = record {
      valid = f.valid;
      cursor_in = f.cursor_in;
      agrees = f.agrees;
    }

    -- From a state in which the replica follows the primary, whatever the primary inserts (one row or
    -- many, with ids that the table does not have; merged with a like row or not), writes, updates, archives, evicts,
    -- deletes by id or by condition and forgets by filter (its next sequence number staying below
    -- 2 ^ 64), in whatever order with pulls that are answered, refused or lost: the replica follows it still, that is, its cursor
    -- is one that the log has given out, and it differs from the primary at most in ids that are
    -- still to come after the cursor.
    pub Reach-Follows :
        {s t : System}
        → Follows db s.primary s.replica
        → Reach io model s t
        → Follows db t.primary t.replica
    Reach-Follows f here = f
    Reach-Follows f (next steps st) = Step-Follows st (Reach-Follows f steps)
