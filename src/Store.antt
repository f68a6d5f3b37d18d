-- ===== src/Store.antt =====
-- A daemon's two tables over one change log: the write primitives of src/memory/store.rs, and the
-- start-up of src/daemon/serve.rs that seeds the log. Errors of the database are not modelled.
pub mod Edits
pub mod Reads
pub mod Merging
pub mod Sweeps
pub mod Filters
pub mod Queries
pub mod Forgetting
pub mod Paging
use linggen_memory.Prelude.{String, Bool, Option, none, some, List, [], ◌∷◌, if◌then◌else◌, is_some}
use linggen_memory.Types.{Memory}
use linggen_memory.Tables.{TableApi}
use linggen_memory.Changes.{Op, ChangeLog, record_ids, needs_seed}

pub data TableName : Type 0 where
  semantic episodic : TableName

abbrev pub table_str : TableName → String
table_str semantic = "semantic"
table_str episodic = "episodic"

abbrev pub other : TableName → TableName
other semantic = episodic
other episodic = semantic

-- Whether the writes to the log's file succeed.
pub record Io : Type 0 where
  pub appended : Bool
  pub rewritten : Bool

module _ (db : TableApi) where
  open db use {Table, get, ids}

  pub record Node : Type 0 where
    pub semantic : Table
    pub episodic : Table
    pub log : ChangeLog

  abbrev pub table_of : TableName → Node → Table
  table_of semantic n = n.semantic
  table_of episodic n = n.episodic

  abbrev pub with_table : TableName → Table → Node → Node
  with_table semantic t n = record n { semantic = t }
  with_table episodic t n = record n { episodic = t }

  -- The store's `record`, with the table's name.
  abbrev pub noted : Io → TableName → Op → List String → Node → Node
  noted io w op ids n = record n {
    log = record_ids io.appended io.rewritten (table_str w) op ids n.log;
  }

  unfoldable pub upsert : Io → TableName → Memory → Node → Node
  upsert io w m n = noted io w Op.upsert (m.id ∷ []) (with_table w (db.upsert (table_of w n) m) n)

  -- The ids that a delete by id names in the log: none if no row goes.
  abbrev pub doomed : Option Memory → String → List String
  doomed none id = []
  doomed (some m) id = id ∷ []

  unfoldable pub delete : Io → TableName → String → Node → Node × Bool
  delete io w id n =
      let found = get (table_of w n) id in
      (
        noted io w Op.delete (doomed found id) (with_table w (db.delete (table_of w n) id) n),
        is_some found,
      )

  unfoldable pub get_row : TableName → String → Node → Option Memory
  get_row w id n = get (table_of w n) id

  -- `attach_change_log`: a log that has never been written names every row of both tables.
  unfoldable pub attach_change_log : Io → Io → Node → Node
  attach_change_log io io' n =
      if needs_seed n.log
      then noted io' episodic Op.upsert (ids n.episodic)
          (noted io semantic Op.upsert (ids n.semantic) n)
      else n
