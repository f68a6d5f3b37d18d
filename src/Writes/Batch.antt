-- ===== src/Writes/Batch.antt =====
-- The import of many rows (`add_batch` of src/http/memory.rs), and the insert of several rows at once
-- (src/memory/store.rs).
use linggen_memory.Prelude.{
  ℕ, suc, String, Bool, not, ◌&&◌, ◌||◌, Option, none, some, List, [], ◌∷◌, ◌++◌, map, or_else,
  if◌then◌else◌,
}
use linggen_memory.Types.{Memory, fact, derived, Instant, Float, new}
use linggen_memory.Tables.{TableApi}
use linggen_memory.Changes.{Op}
use linggen_memory.Store.{TableName, Io, Node, table_of, with_table, noted}
use linggen_memory.Writes.Fields.{
  AddRequest, is_blank, is_core, is_table, table_for, resolve_tier, clean_summary, non_blank,
}

-- Here `scope` is taken as given, and `cwd` in its place.
abbrev pub written_scope : Option String → Bool → Option String
written_scope scope global = if global then none else non_blank scope

abbrev first_given : Option String → Option String → Option String
first_given (some s) later = some s
first_given none later = later

abbrev pub batch_row : String → Instant → AddRequest → Memory
batch_row id now r =
    let tier = resolve_tier r.tier r.episodic [] r.indexed in
    record (new id now r.content (or_else r.type fact) (or_else r.origin derived)) {
      tier = tier;
      outcome = r.outcome;
      scope = written_scope (first_given r.scope r.cwd) (r.global || is_core tier);
      summary = clean_summary r.summary;
      indexed = r.indexed && not (is_core tier);
      occurred_at = r.occurred_at;
      source_session = r.source_session;
      host = r.host;
    }

-- The rows of one table; a blank text is left out. `ids` is what the generator gives, in order.
abbrev pub rows_for : TableName → (ℕ → String) → Instant → ℕ → List AddRequest → List Memory
rows_for w ids now k [] = []
rows_for w ids now k (r ∷ rs) =
    let row = batch_row (ids k) now r in
    let blank = is_blank r.content in
    let rest = rows_for w ids now (if blank then k else suc k) rs in
    if not blank && is_table w (table_for row.tier) then row ∷ rest else rest

-- `zip`.
abbrev with_vectors : List Memory → List (List Float) → List Memory
with_vectors [] vs = []
with_vectors (m ∷ ms) [] = m ∷ ms
with_vectors (m ∷ ms) (v ∷ vs) = record m { vector = some v } ∷ with_vectors ms vs

abbrev content_of : Memory → String
content_of m = m.content

abbrev pub id_of : Memory → String
id_of m = m.id

module _ (db : TableApi) where
  abbrev pub add_all : List Memory → db.Table → db.Table
  add_all [] t = t
  add_all (m ∷ ms) t = add_all ms (db.add t m)

  -- `insert` of several rows: one commit, one record of their ids.
  unfoldable pub insert_rows : Io → TableName → List Memory → Node db → Node db
  insert_rows io w ms n =
      noted db io w Op.upsert (map id_of ms) (with_table db w (add_all ms (table_of db w n)) n)

  -- The rows that one table took, `none` if the embedding failed.
  abbrev insert_group :
      Io
      → (List String → Option (List (List Float)))
      → TableName
      → List Memory
      → Node db
      → Option (List Memory) × Node db
  insert_group io embed w [] n = (some [], n)
  insert_group io embed w (m ∷ ms) n = elim (embed (map content_of (m ∷ ms))) [
    | none ↦ (none, n)
    | some vs ↦ let rows = with_vectors (m ∷ ms) vs in (some rows, insert_rows io w rows n)
  ]

  abbrev joined : Option (List Memory) → Option (List Memory) → Option (List Memory)
  joined none later = none
  joined (some ms) none = none
  joined (some ms) (some more) = some (ms ++ more)

  -- An import that fails at the staged rows has written the others.
  unfoldable pub add_batch :
      Io
      → Io
      → (List String → Option (List (List Float)))
      → (ℕ → String)
      → Instant
      → List AddRequest
      → Node db
      → Option (List Memory) × Node db
  unfolding insert_rows
  add_batch io io' embed ids now facts n =
      let (first, n1) =
        insert_group io embed TableName.semantic (rows_for TableName.semantic ids now 0 facts) n in
      let (second, n2) =
        insert_group io' embed TableName.episodic (rows_for TableName.episodic ids now 0 facts)
          n1 in
      elim first [ none ↦ (none, n1) | some ms ↦ (joined (some ms) second, n2) ]
