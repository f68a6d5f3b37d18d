-- ===== src/Sync/Sweeps.antt =====
-- Bulk deletes on the primary, as a replica sees them: the rows that go, and what the log says.
use linggen_memory.Prelude.{
  ℕ, ◌+◌, ◌^◌, ◌<◌, String, ◌≡◌, refl, ap, ◌∙◌, Bool, false, ◌&&◌, ◌||◌, none, List, arith, length,
  if◌then◌else◌, ltb, or_else,
}
use linggen_memory.Types.{Memory, Instant}
use linggen_memory.Tables.{TableApi}
use linggen_memory.Changes.{Op, record_ids}
use linggen_memory.Changes.Recording.{IsValid}
use linggen_memory.Store.{TableName, semantic, episodic, Io, Node, table_of, table_str, get_row}
use linggen_memory.Store.Reads.{same_table}
use linggen_memory.Store.Sweeps.{
  passes, ids_where, delete_where, is_older, evict_expired, any-ids_where_of_table, get-swept,
  delete_where-get_row,
}
use linggen_memory.Sync.{current, Replica}
use linggen_memory.Sync.Follows.{Follows, Follows-write}
use linggen_memory.Sync.Pending.{is_pending, is_listed, is_pending-record_ids}

-- Of a row: the time at which it happened, else at which it was created, lies before the cutoff.
abbrev pub happened_before : Instant → Memory → Bool
happened_before cutoff m = ltb (or_else m.occurred_at m.created_at) cutoff

module _ (db : TableApi) where
  -- The ids of a table whose rows pass.
  abbrev pub swept : TableName → (Memory → Bool) → Node db → List String
  swept w p n = ids_where db (db.ids (table_of db w n)) p (table_of db w n)

  log-delete_where :
      (io : Io) (w : TableName) (p : Memory → Bool) (n : Node db)
      → (delete_where db io w p n).0.log
        ≡ record_ids io.appended io.rewritten (table_str w) Op.delete (swept w p n) n.log
  unfolding delete_where
  log-delete_where io semantic p n = refl
  log-delete_where io episodic p n = refl

  current-delete_where :
      (io : Io) (w : TableName) (p : Memory → Bool) (k : String) (n : Node db)
      → is_listed (swept w p n) k ≡ false
      → current db k (delete_where db io w p n).0 ≡ current db k n
  unfolding current delete_where
  current-delete_where io semantic p k n h =
      ground (arith, get-swept db p n.semantic k, any-ids_where_of_table db p n.semantic k)
  current-delete_where io episodic p k n h =
      ground (arith, get-swept db p n.episodic k, any-ids_where_of_table db p n.episodic k)

  pub Follows-delete_where :
      (io : Io) (w : TableName) (q : Memory → Bool) (p : Node db) (r : Replica db)
      → p.log.next_seq + length (swept w q p) < 2 ^ 64
      → Follows db p r
      → Follows db (delete_where db io w q p).0 r
  Follows-delete_where io w q p r room f =
      Follows-write db p (delete_where db io w q p).0 r io.appended io.rewritten (table_str w)
        Op.delete (swept w q p) room (log-delete_where io w q p)
        (λ k. current-delete_where io w q k p) f

  -- An eviction takes from one table exactly the rows whose time (when it happened, else when it
  -- was created) lies before the cutoff, however lately they were edited, and every other row of
  -- both tables is read as before. On a valid log with room for them below 2 ^ 64, exactly their ids
  -- are added to what is to come at every cursor that the log has given out.
  pub evict_expired_lem :
      (io : Io) (w : TableName) (cutoff : Instant) (c : ℕ) (k : String) (n : Node db)
      → IsValid n.log
      → c < n.log.next_seq
      → n.log.next_seq + length (swept w (happened_before cutoff) n) < 2 ^ 64
      → ((v : TableName)
          → get_row db v k (evict_expired db io w cutoff n).0 ≡ (
              if same_table w v && passes db (happened_before cutoff) (get_row db w k n)
              then none
              else get_row db v k n))
        × (is_pending (evict_expired db io w cutoff n).0.log c k
            ≡ (is_pending n.log c k || passes db (happened_before cutoff) (get_row db w k n)))
  unfolding evict_expired get_row
  evict_expired_lem io w cutoff c k n valid given room =
      let old = is_older cutoff in
      (
        λ v. delete_where-get_row db io w v old k n,
        ap (λ log. is_pending log c k) (log-delete_where io w old n)
            ∙ is_pending-record_ids io.appended io.rewritten (table_str w) Op.delete (swept w old n)
                n.log c k valid given room
            ∙ ap (λ b. is_pending n.log c k || b)
                (any-ids_where_of_table db old (table_of db w n) k),
      )
