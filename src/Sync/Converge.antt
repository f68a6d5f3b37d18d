-- ===== src/Sync/Converge.antt =====
-- From a seeded log and an empty replica to a full copy.
use linggen_memory.Prelude.{
  ℕ, zero, suc, ◌+◌, ◌^◌, ◌<◌, String, ◌≡◌, ◌∙◌, sym, Bool-cases, inl, inr, true, false, Option,
  some, none, arith, length, replicate,
}
use linggen_memory.Types.{Instant}
use linggen_memory.Tables.{TableApi}
use linggen_memory.Changes.{Op, page_after, record_ids, needs_seed}
use linggen_memory.Changes.Recording.{IsValid, record_ids-IsValid, next_seq-record_ids}
use linggen_memory.Replica.{upstream}
use linggen_memory.Store.{TableName, Io, Node, attach_change_log}
use linggen_memory.Sync.{Answer, answered, current, changes, Replica, pull_loop, pull_all, go_on}
use linggen_memory.Sync.Pending.{is_listed, is_pending-record_ids}
use linggen_memory.Sync.Follows.{Follows, Follows-pull, pull, pull_finished, pull_shrinks}

module _ (db : TableApi) where
  current_of_absent :
      (n : Node db) (k : String)
      → is_listed (db.ids n.semantic) k ≡ false
      → is_listed (db.ids n.episodic) k ≡ false
      → current db k n ≡ none
  unfolding current
  current_of_absent n k hs he =
      ground (arith, db.get_of_ids n.semantic k hs, db.get_of_ids n.episodic k he)

  -- A store whose valid log has never been written (with room below 2 ^ 64 for its rows) is seeded
  -- with every row of both tables, so that a replica with no rows and a cursor of 0 follows it.
  pub attach_change_log-Follows :
      (io io' : Io) (n : Node db) (r : Replica db)
      → needs_seed n.log ≡ true
      → IsValid n.log
      → n.log.next_seq + length (db.ids n.semantic) + length (db.ids n.episodic) < 2 ^ 64
      → r.file.cursor ≡ 0
      → ((k : String) → current db k r.node ≡ none)
      → Follows db (attach_change_log db io io' n) r
  unfolding attach_change_log current
  attach_change_log-Follows io io' n r fresh v fits start empty =
      let first =
        record_ids io.appended io.rewritten "semantic" Op.upsert (db.ids n.semantic) n.log in
      let grows1 =
        next_seq-record_ids io.appended io.rewritten "semantic" Op.upsert (db.ids n.semantic) n.log
          (omega arith) in
      let (v1, _) =
        record_ids-IsValid io.appended io.rewritten "semantic" Op.upsert (db.ids n.semantic) n.log v
          (omega arith) in
      let (v2, _) =
        record_ids-IsValid io'.appended io'.rewritten "episodic" Op.upsert (db.ids n.episodic) first
          v1 (omega (arith, grows1, v1.positive, v.positive)) in
      rw fresh (record {
        valid = v2;
        cursor_in = omega (arith, v2.positive, start);
        agrees = λ k quiet.
            let told1 =
              is_pending-record_ids io.appended io.rewritten "semantic" Op.upsert
                (db.ids n.semantic) n.log r.file.cursor k v (omega (arith, v.positive, start))
                (omega arith) in
            let told2 =
              is_pending-record_ids io'.appended io'.rewritten "episodic" Op.upsert
                (db.ids n.episodic) first r.file.cursor k v1 (omega (arith, v1.positive, start))
                (omega (arith, grows1, v1.positive, v.positive)) in
            empty k
            ∙ sym (
                current_of_absent n k (ground (arith, told1, told2, quiet))
                  (ground (arith, told1, told2, quiet)));
      })

  module _ (io : TableName → String → Io) (model : String) (limit : Option ℕ) (now : Instant) where
    -- The primary's answer, as a fetch at any cursor.
    abbrev pub answer : Node db → Instant × (ℕ → Answer)
    answer p = (now, λ c. answered (changes db model p c limit))

    pull_loop-copies :
        (n : ℕ) (p : Node db) (r : Replica db) (k : String)
        → Follows db p r
        → length (page_after r.file.cursor p.log.entries) < n
        → current db k (pull_loop db io model (replicate n (answer p)) r).node ≡ current db k p
    unfolding pull_loop
    pull_loop-copies zero p r k f less = absurd (omega arith)
    pull_loop-copies (suc n) p r k f less = elim (Bool-cases (pull db io model limit now p r).1) [
      | inl more ↦
          rw (more, go_on)
            (pull_loop-copies n p (pull db io model limit now p r).0 k
              (Follows-pull db io model limit now p r f)
              (omega (arith, pull_shrinks db io model limit now p r f more)))
      | inr ended ↦ rw (ended, go_on) (pull_finished db io model limit now p r f ended k)
    ]

    -- If a linked replica follows a primary that answers and is not written meanwhile, then
    -- `pull_all`, over one answer more than there are changes to come, ends with the replica
    -- reading every id as the primary does.
    pub pull_all-copies :
        (n : ℕ) (p : Node db) (r : Replica db) (up : String × String) (k : String)
        → upstream r.file ≡ some up
        → Follows db p r
        → length (page_after r.file.cursor p.log.entries) < n
        → current db k (pull_all db io model (replicate n (answer p)) r).node ≡ current db k p
    unfolding pull_all
    pull_all-copies n p r up k linked f less =
        rw (linked, pull_all) (pull_loop-copies n p r k f less)
