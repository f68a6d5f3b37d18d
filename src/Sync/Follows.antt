-- ===== src/Sync/Follows.antt =====
-- A replica that follows its primary: the invariant, and what the primary's writes and one pull do
-- to it.
use linggen_memory.Prelude.{
  ℕ, ◌+◌, ◌^◌, ◌≤◌, ◌<◌, String, ◌==◌, eq_iff, eq_refl, ◌≡◌, ◌∙◌, refl, sym, ap, Bool, true, false,
  Option, some, none, List, [], ◌∷◌, arith, length, min, max, or_else,
}
use linggen_memory.Types.{Memory, Instant}
use linggen_memory.Tables.{TableApi}
use linggen_memory.Changes.{Op, page_after, record_ids, since}
use linggen_memory.Changes.Latest.{occurs}
use linggen_memory.Changes.Order.{head_lem}
use linggen_memory.Changes.Recording.{IsValid, next_seq-record_ids, record_ids-IsValid}
use linggen_memory.Changes.Pages.{since_covers, since_bounds, since_shrinks}
use linggen_memory.Store.{
  TableName, semantic, episodic, Io, Node, table_of, table_str, doomed, upsert, delete,
}
use linggen_memory.Sync.{answered, current, changes, Replica, pull_page, max_limit, default_limit}
use linggen_memory.Sync.Apply.{current-apply_rows}
use linggen_memory.Sync.Pending.{is_pending, is_listed, is_pending-record_ids}

module _ (db : TableApi) where
  -- The replica has what the primary has, but for the ids that it has still to be told of.
  pub record Follows (p : Node db) (r : Replica db) : Type 0 where
    pub valid : IsValid p.log
    pub cursor_in : r.file.cursor < p.log.next_seq
    pub agrees :
        (k : String)
        → is_pending p.log r.file.cursor k ≡ false
        → current db k r.node ≡ current db k p

  current-upsert :
      (io : Io) (w : TableName) (m : Memory) (k : String) (n : Node db)
      → (m.id == k) ≡ false
      → current db k (upsert db io w m n) ≡ current db k n
  unfolding current upsert
  current-upsert io semantic m k n h = ground (arith, db.get-upsert n.semantic m k)
  current-upsert io episodic m k n h = ground (arith, db.get-upsert n.episodic m k)

  current-delete :
      (io : Io) (w : TableName) (id k : String) (n : Node db)
      → is_listed (doomed db (db.get (table_of db w n) id) id) k ≡ false
      → current db k (delete db io w id n).0 ≡ current db k n
  unfolding current delete
  current-delete io semantic id k n h = ground (arith, db.get-delete n.semantic id k, eq_iff id k)
  current-delete io episodic id k n h = ground (arith, db.get-delete n.episodic id k, eq_iff id k)

  -- A write of the primary that records the ids `ids` and changes no other row.
  pub Follows-write :
      (p p' : Node db) (r : Replica db) (a w : Bool) (table : String) (op : Op) (ids : List String)
      → p.log.next_seq + length ids < 2 ^ 64
      → p'.log ≡ record_ids a w table op ids p.log
      → ((k : String) → is_listed ids k ≡ false → current db k p' ≡ current db k p)
      → Follows p r
      → Follows p' r
  Follows-write p p' r a w table op ids fits logged keeps f =
      let valid = (record_ids-IsValid a w table op ids p.log f.valid fits).0 in
      let grows = next_seq-record_ids a w table op ids p.log fits in
      record {
        valid = rw logged valid;
        cursor_in = rw logged (omega (arith, valid.positive, grows, f.cursor_in));
        agrees = λ k quiet.
            let told =
              is_pending-record_ids a w table op ids p.log r.file.cursor k f.valid f.cursor_in
                fits in
            let still = ap (λ log. is_pending log r.file.cursor k) logged in
            ground (arith, told, still, quiet, keeps k, f.agrees k);
      }

  pub Follows-upsert :
      (io : Io) (w : TableName) (m : Memory) (p : Node db) (r : Replica db)
      → p.log.next_seq + 1 < 2 ^ 64
      → Follows p r
      → Follows (upsert db io w m p) r
  unfolding upsert
  Follows-upsert io w m p r room f =
      Follows-write p (upsert db io w m p) r io.appended io.rewritten (table_str w) Op.upsert
        (m.id ∷ []) (omega arith) (log-upsert w)
        (λ k quiet. current-upsert io w m k p (ground (arith, quiet))) f
    where
      log-upsert :
          (w : TableName)
          → (upsert db io w m p).log
            ≡ record_ids io.appended io.rewritten (table_str w) Op.upsert (m.id ∷ []) p.log
      log-upsert semantic = refl
      log-upsert episodic = refl

  length-doomed : (o : Option Memory) (id : String) → length (doomed db o id) ≤ 1
  length-doomed none id = omega arith
  length-doomed (some m) id = omega arith

  log-delete :
      (io : Io) (w : TableName) (id : String) (p : Node db)
      → (delete db io w id p).0.log
        ≡ record_ids io.appended io.rewritten
            (table_str w)
            Op.delete
            (doomed db (db.get (table_of db w p) id) id)
            p.log
  unfolding delete
  log-delete io semantic id p = refl
  log-delete io episodic id p = refl

  -- A delete takes at most one number.
  pub delete_log_grows :
      (io : Io) (w : TableName) (id : String) (p : Node db)
      → IsValid p.log
      → p.log.next_seq + 1 < 2 ^ 64
      → (delete db io w id p).0.log.next_seq ≤ p.log.next_seq + 1
  delete_log_grows io w id p valid room =
      let gone = doomed db (db.get (table_of db w p) id) id in
      let one = length-doomed (db.get (table_of db w p) id) id in
      rw (log-delete io w id p) (
        omega (
          arith,
          one,
          next_seq-record_ids io.appended io.rewritten (table_str w) Op.delete gone p.log
              (omega (arith, one)),
        ))

  pub Follows-delete :
      (io : Io) (w : TableName) (id : String) (p : Node db) (r : Replica db)
      → p.log.next_seq + 1 < 2 ^ 64
      → Follows p r
      → Follows (delete db io w id p).0 r
  unfolding delete
  Follows-delete io w id p r room f =
      let gone = doomed db (db.get (table_of db w p) id) id in
      Follows-write p (delete db io w id p).0 r io.appended io.rewritten (table_str w) Op.delete
        gone (omega (arith, length-doomed (db.get (table_of db w p) id) id)) (log-delete io w id p)
        (λ k. current-delete io w id k p) f

  module _ (io : TableName → String → Io) (model : String) (limit : Option ℕ) where
    abbrev pub pull : Instant → Node db → Replica db → Replica db × Bool
    pull now p r = pull_page db io model now (answered (changes db model p r.file.cursor limit)) r

    -- A page keeps what the replica follows, whatever the limit.
    pub Follows-pull :
        (now : Instant) (p : Node db) (r : Replica db) → Follows p r → Follows p (pull now p r).0
    unfolding pull_page changes
    Follows-pull now p r f =
        let size = min max_limit (max 1 (or_else limit default_limit)) in
        let entries = (since p.log r.file.cursor size).0 in
        let (covers, done) = since_covers p.log r.file.cursor size f.valid.ascending in
        rw (eq_refl model) (record {
          valid = f.valid;
          cursor_in = omega (
            arith,
            (since_bounds p.log r.file.cursor size f.valid.ascending
                (omega (arith, f.cursor_in, head_lem p.log f.valid.positive))).1,
            head_lem p.log f.valid.positive,
            f.valid.positive,
          );
          agrees = λ k quiet.
              ground
                (arith, current-apply_rows db io p entries k r.node, covers k, quiet, f.agrees k);
        })

    abbrev size : ℕ
    size = min max_limit (max 1 (or_else limit default_limit))

    cursor-pull :
        (now : Instant) (p : Node db) (r : Replica db)
        → (pull now p r).0.file.cursor ≡ (since p.log r.file.cursor size).1
    unfolding pull_page changes
    cursor-pull now p r = rw (eq_refl model)

    more-pull :
        (now : Instant) (p : Node db) (r : Replica db)
        → (pull now p r).1 ≡ (since p.log r.file.cursor size).2
    unfolding pull_page changes
    more-pull now p r = rw (eq_refl model)

    -- If the replica follows the primary, a pull that says nothing more is to come has made it read
    -- every id as the primary does.
    pub pull_finished :
        (now : Instant) (p : Node db) (r : Replica db)
        → Follows p r
        → (pull now p r).1 ≡ false
        → (k : String) → current db k (pull now p r).0.node ≡ current db k p
    pull_finished now p r f ended k =
        let (covers, done) = since_covers p.log r.file.cursor size f.valid.ascending in
        let nothing = done.0 (sym (more-pull now p r) ∙ ended) in
        (Follows-pull now p r f).agrees k
          (ap (λ c. is_pending p.log c k) (cursor-pull now p r) ∙ ap (occurs k) nothing)

    -- A pull that goes on leaves fewer changes to come.
    pub pull_shrinks :
        (now : Instant) (p : Node db) (r : Replica db)
        → Follows p r
        → (pull now p r).1 ≡ true
        → length (page_after (pull now p r).0.file.cursor p.log.entries)
          < length (page_after r.file.cursor p.log.entries)
    pull_shrinks now p r f more =
        rw cursor-pull (
          since_shrinks p.log r.file.cursor size f.valid.ascending (sym (more-pull now p r) ∙ more))
