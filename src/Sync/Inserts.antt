-- ===== src/Sync/Inserts.antt =====
-- The primary's inserts and bulk deletes (src/memory/store.rs), as a replica that follows it sees
-- them.
use linggen_memory.Prelude.{
  ◌+◌, ◌^◌, ◌<◌, String, ◌≡◌, ◌∙◌, refl, Bool, Bool-cases, inl, inr, false, Option, none, some,
  List, [], ◌∷◌, arith, length, map, is_some,
}
use linggen_memory.Paths.{FilePath}
use linggen_memory.Types.{Memory}
use linggen_memory.Tables.{TableApi}
use linggen_memory.Changes.{Op, record_ids}
use linggen_memory.Store.{
  TableName, semantic, episodic, Io, Node, table_of, table_str, get_row, delete,
}
use linggen_memory.Store.Edits.{
  insert, insert_on, insert_with_dedup_except, find_exact_content, merge_fact,
}
use linggen_memory.Store.Filters.{Filters, matches, is_empty_filter, apply_origin_filter}
use linggen_memory.Store.Queries.{list, delete_rows, forget, newest, usize_max}
use linggen_memory.Writes.Batch.{insert_rows, add_all, id_of}
use linggen_memory.Sync.{current, Replica}
use linggen_memory.Sync.Pending.{is_listed}
use linggen_memory.Sync.Sweeps.{swept, Follows-delete_where}
use linggen_memory.Sync.Follows.{
  Follows, Follows-write, Follows-upsert, Follows-delete, delete_log_grows,
}

module _ (db : TableApi) where
  -- No row has an id before it is added.
  abbrev pub IsFresh : List Memory → db.Table → Type 0
  IsFresh [] t = Unit
  IsFresh (m ∷ ms) t = (db.get t m.id ≡ none) × IsFresh ms (db.add t m)

  get-add_all :
      (ms : List Memory) (t : db.Table) (k : String)
      → IsFresh ms t
      → is_listed (map id_of ms) k ≡ false
      → db.get (add_all db ms t) k ≡ db.get t k
  get-add_all [] t k h away = refl
  get-add_all (m ∷ ms) t k h away =
      get-add_all ms (db.add t m) k h.1 (ground (arith, away))
      ∙ ground (arith, db.get-add t m k h.0, away)

  current-insert_rows :
      (io : Io) (w : TableName) (ms : List Memory) (k : String) (n : Node db)
      → IsFresh ms (table_of db w n)
      → is_listed (map id_of ms) k ≡ false
      → current db k (insert_rows db io w ms n) ≡ current db k n
  unfolding current insert_rows
  current-insert_rows io semantic ms k n h away = ground (arith, get-add_all ms n.semantic k h away)
  current-insert_rows io episodic ms k n h away = ground (arith, get-add_all ms n.episodic k h away)

  pub Follows-insert_rows :
      (io : Io) (w : TableName) (ms : List Memory) (p : Node db) (r : Replica db)
      → IsFresh ms (table_of db w p)
      → p.log.next_seq + length (map id_of ms) < 2 ^ 64
      → Follows db p r
      → Follows db (insert_rows db io w ms p) r
  unfolding insert_rows
  Follows-insert_rows io w ms p r fresh room f =
      Follows-write db p (insert_rows db io w ms p) r io.appended io.rewritten (table_str w)
        Op.upsert (map id_of ms) room (log-insert_rows w)
        (λ k. current-insert_rows io w ms k p fresh) f
    where
      log-insert_rows :
          (w : TableName)
          → (insert_rows db io w ms p).log
            ≡ record_ids io.appended io.rewritten (table_str w) Op.upsert (map id_of ms) p.log
      log-insert_rows semantic = refl
      log-insert_rows episodic = refl

  current-insert :
      (io : Io) (w : TableName) (m : Memory) (k : String) (n : Node db)
      → get_row db w m.id n ≡ none
      → is_listed (m.id ∷ []) k ≡ false
      → current db k (insert db io w m n) ≡ current db k n
  unfolding current insert get_row
  current-insert io semantic m k n h away = ground (arith, db.get-add n.semantic m k h, away)
  current-insert io episodic m k n h away = ground (arith, db.get-add n.episodic m k h, away)

  pub Follows-insert :
      (io : Io) (w : TableName) (m : Memory) (p : Node db) (r : Replica db)
      → get_row db w m.id p ≡ none
      → p.log.next_seq + 1 < 2 ^ 64
      → Follows db p r
      → Follows db (insert db io w m p) r
  unfolding insert
  Follows-insert io w m p r fresh room f =
      Follows-write db p (insert db io w m p) r io.appended io.rewritten (table_str w) Op.upsert
        (m.id ∷ []) (omega arith) (log-insert w) (λ k. current-insert io w m k p fresh) f
    where
      log-insert :
          (w : TableName)
          → (insert db io w m p).log
            ≡ record_ids io.appended io.rewritten (table_str w) Op.upsert (m.id ∷ []) p.log
      log-insert semantic = refl
      log-insert episodic = refl

  pub Follows-insert_with_dedup_except :
      (io : Io) (w : TableName) (m : Memory) (except : List String) (p : Node db) (r : Replica db)
      → get_row db w m.id p ≡ none
      → p.log.next_seq + 1 < 2 ^ 64
      → Follows db p r
      → Follows db (insert_with_dedup_except db io w m except p).1 r
  unfolding insert_with_dedup_except
  Follows-insert_with_dedup_except io w m except p r fresh room f =
      by_match (find_exact_content db w m.content m.type except p)
    where
      by_match : (o : Option Memory) → Follows db (insert_on db o io w m p).1 r
      by_match none = Follows-insert io w m p r fresh room f
      by_match (some old) = Follows-upsert db io w (merge_fact old m) p r room f

  pub Follows-delete_rows :
      (io : String → Io) (w : TableName) (ms : List Memory) (p : Node db) (r : Replica db)
      → p.log.next_seq + length ms < 2 ^ 64
      → Follows db p r
      → Follows db (delete_rows db io w ms p).0 r
  unfolding delete_rows
  Follows-delete_rows io w [] p r room f = f
  Follows-delete_rows io w (m ∷ ms) p r room f =
      Follows-delete_rows io w ms (delete db (io m.id) w m.id p).0 r
        (omega (arith, delete_log_grows db (io m.id) w m.id p f.valid (omega arith)))
        (Follows-delete db (io m.id) w m.id p r (omega arith) f)

  module _ (home tmp : FilePath) (like : String → String → Bool) where
    -- The rows that a forget by origin deletes one by one.
    abbrev pub named_rows : TableName → Filters → Node db → List Memory
    named_rows w g n = apply_origin_filter g.origin (list db home tmp like w g newest usize_max 0 n)

    pub Follows-forget :
        (io : String → Io) (io' : Io) (w : TableName) (g : Filters) (p : Node db) (r : Replica db)
        → p.log.next_seq + length (named_rows w g p) < 2 ^ 64
        → p.log.next_seq + length (swept db w (matches home tmp like g) p) < 2 ^ 64
        → Follows db p r
        → Follows db (forget db home tmp like io io' w g p).0 r
    unfolding forget
    Follows-forget io io' w g p r room room' f = elim (Bool-cases (is_empty_filter g)) [
      | inl empty ↦ rw empty f
      | inr given ↦ elim (Bool-cases (is_some g.origin)) [
        | inl from ↦ rw (given, from) (Follows-delete_rows io w (named_rows w g p) p r room f)
        | inr any_origin ↦
            rw (given, any_origin)
              (Follows-delete_where db io' w (matches home tmp like g) p r room' f)
      ]
    ]
