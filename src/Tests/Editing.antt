-- ===== src/Tests/Editing.antt =====
-- The properties of edits of rows at concrete rows.
use linggen_memory.Prelude.{
  String, ◌==◌, ◌≡◌, refl, ◌⊎◌, true, false, ◌&&◌, none, some, [], ◌∷◌, if◌then◌else◌,
}
use linggen_memory.Types.{Memory, new, fact, user}
use linggen_memory.Tables.{row_tables}
use linggen_memory.Changes.{open_log}
use linggen_memory.Store.{TableName, semantic, Io, Node, get_row}
use linggen_memory.Store.Edits.{
  MemoryPatch, merge_fact, added, merged, one, insert_with_dedup_except,
}
use linggen_memory.Store.Reads.{same_table, row_of, passes}
use linggen_memory.Store.Merging

abbrev disk : Io
disk = record { appended = true; rewritten = true }

abbrev old_row : Memory
old_row = record (new "a" 10 "tabs" fact user) { scope = some "/h/r" }

abbrev said_again : Memory
said_again = record (new "c" 30 "tabs" fact user) { scope = some "/h/q" }

abbrev store : Node row_tables
store = record {
  semantic = old_row ∷ [];
  episodic = new "b" 20 "spaces" fact user ∷ [];
  log = open_log none;
}

abbrev to_spaces : MemoryPatch
to_spaces = record {
  content = some "spaces";
  summary = none;
  indexed = none;
  type = none;
  tier = none;
  origin = none;
  outcome = none;
  scope = some none;
  occurred_at = none;
  source_session = none;
  host = none;
  vector = none;
  account_id = none;
  account_name = none;
}

insert_with_dedup_except_lem_example :
    let (o, after) = insert_with_dedup_except row_tables disk semantic said_again [] store in
    ((v : TableName) (k : String)
      → get_row row_tables v k after ≡ (
          if same_table semantic v && ((row_of o).id == k)
          then some (row_of o)
          else get_row row_tables v k store))
    × (((o ≡ added said_again)
          × ((k : String)
              → passes (Merging.is_live_copy said_again []) (get_row row_tables semantic k store)
                ≡ false))
        ⊎ ((old : Memory) × (get_row row_tables semantic old.id store ≡ some old)
            × (Merging.is_live_copy said_again [] old ≡ true)
            × (o ≡ merged (merge_fact old said_again) one old.id)
            × ((row_of o).id ≡ old.id)
            × ((row_of o).origin ≡ old.origin)
            × ((row_of o).created_at ≡ old.created_at)))
unfolding get_row linggen_memory.Tables.find_row new
insert_with_dedup_except_lem_example =
    Merging.insert_with_dedup_except_lem row_tables disk semantic said_again [] store refl
