-- ===== src/Writes.antt =====
-- The handlers that write rows (src/http/memory.rs): add, update, delete and restamp. Whether the log
-- of a write can be saved goes by the id written; the embedding of a text is an argument.
pub mod Fields
pub mod Batch
pub mod Voice
pub mod Kept
pub mod Rewrites
use linggen_memory.Prelude.{
  ℕ, suc, ◌+◌, String, ◌==◌, Bool, true, false, not, ◌&&◌, ◌||◌, Option, none, some, List, [], ◌∷◌,
  any, map, is_some, or_else, leb, ltb, if◌then◌else◌, filter,
}
use linggen_memory.Paths.{FilePath}
use linggen_memory.Text.{trim, is_empty}
use linggen_memory.Types.{
  Memory, MemoryType, fact, Tier, core, Origin, user, Outcome, Instant, Float, new,
}
use linggen_memory.Tables.{TableApi}
use linggen_memory.Store.{TableName, Io, Node, other, get_row, delete}
use linggen_memory.Store.Edits
use linggen_memory.Store.Edits.{
  InsertOutcome, merged, MemoryPatch, apply, insert, insert_with_dedup_except, find_exact_content,
  update_full, expire, is_longer, preferred, one,
}
use linggen_memory.Store.Reads.{row_of}
use linggen_memory.Store.Filters.{AccountScope, admits}
use linggen_memory.Store.Queries.{restamp_account}
use linggen_memory.Writes.Fields.{
  AddRequest, UpdateRequest, is_blank, resolve_tier, tier_rank, new_fact, patch_of, pinned,
  table_for, is_table, is_core,
}

unfoldable pub merge_with_existing : Memory → Memory → Memory
merge_with_existing existing candidate =
    let longer = is_longer candidate existing in
    record existing {
      content = if longer then candidate.content else existing.content;
      vector = if longer then candidate.vector else existing.vector;
      outcome = preferred candidate.outcome existing.outcome;
      scope =
          if is_some existing.scope || is_core existing.tier
          then existing.scope
          else candidate.scope;
      summary = preferred existing.summary candidate.summary;
      indexed = existing.indexed || candidate.indexed;
      occurred_at = preferred candidate.occurred_at existing.occurred_at;
      source_session = preferred candidate.source_session existing.source_session;
      host = preferred candidate.host existing.host;
    }

abbrev pub stores_for_read : Option Bool → List TableName
stores_for_read (some true) = TableName.episodic ∷ []
stores_for_read (some false) = TableName.semantic ∷ []
stores_for_read none = TableName.semantic ∷ TableName.episodic ∷ []

-- What an add answers: the row that it left, and the ids that it replaced and did not.
pub data AddReply : Type 0 where
  stored : InsertOutcome → (replaced failed : List String) → AddReply
  bad_request internal : AddReply

pub data UpdateReply : Type 0 where
  updated : Memory → UpdateReply
  blocked not_found bad_scope : UpdateReply

abbrev pub first_found :
    Option Memory → TableName → Option (TableName × Memory) → Option (TableName × Memory)
first_found none w later = later
first_found (some m) w later = some (w, m)

module _ (db : TableApi) where
  -- The row that an id names, in the first table that has it.
  abbrev pub locate_in : List TableName → String → Node db → Option (TableName × Memory)
  locate_in [] id n = none
  locate_in (w ∷ ws) id n = first_found (get_row db w id n) w (locate_in ws id n)

  abbrev pub locate : String → Node db → Option (TableName × Memory)
  locate id n = locate_in (stores_for_read none) id n

  abbrev pub locate_rows : List String → Node db → List Memory
  locate_rows [] n = []
  locate_rows (id ∷ ids) n = elim (locate id n) [
    | none ↦ locate_rows ids n
    | some (w, m) ↦ m ∷ locate_rows ids n
  ]

  abbrev pub is_user : Origin → Bool
  is_user user = true
  is_user _ = false

  abbrev pub is_offending : Node db → String → Bool
  is_offending n id = elim (locate id n) [ none ↦ false | some (w, m) ↦ is_user m.origin ]

  -- `guard_user_voice`: whether the write may go on.
  unfoldable pub guard_user_voice : List String → Bool → Node db → Bool
  guard_user_voice target_ids user_directed n =
      user_directed || not (any (is_offending n) target_ids)

  -- One loser: archived if it is a long-term row, else deleted.
  abbrev pub retire : (String → Io) → Instant → String → String → Node db → Node db × Bool
  retire io now successor id n =
      let (found, archived) = expire db (io id) TableName.semantic id successor now n in
      let (gone, was) = delete db (io id) TableName.episodic id archived in
      if found then (archived, true) else (gone, was)

  unfoldable pub apply_replace_ids :
      (String → Io)
      → Instant
      → String
      → List String
      → Node db
      → (List String × List String) × Node db
  apply_replace_ids io now successor [] n = (([], []), n)
  apply_replace_ids io now successor (id ∷ ids) n =
      let is_own = id == successor in
      let (after, retired) = retire io now successor id n in
      let (answer, done) = apply_replace_ids io now successor ids (if is_own then n else after) in
      (
        if is_own
            then answer
            else if retired
            then (id ∷ answer.0, answer.1)
            else (answer.0, id ∷ answer.1),
        done,
      )

  abbrev pub replied :
      (String → Io) → Instant → List String → InsertOutcome → Node db → AddReply × Node db
  replied io now replace_ids o n =
      let (answer, done) = apply_replace_ids io now (row_of o).id replace_ids n in
      (stored o answer.0 answer.1, done)

  -- The insert into the row's own table, never into a row that is to be replaced.
  abbrev pub add_in_table :
      (String → Io) → Instant → TableName → List String → Memory → Node db → AddReply × Node db
  add_in_table io now w replace_ids row n =
      let (o, after) = insert_with_dedup_except db (io row.id) w row replace_ids n in
      replied io now replace_ids o after

  -- A copy in the other table takes the write if its tier is as high; else the write takes its place.
  abbrev pub add_beside :
      Option Memory
      → (String → Io)
      → Instant
      → TableName
      → List String
      → Memory
      → Node db
      → AddReply × Node db
  add_beside none io now w replace_ids row n = add_in_table io now w replace_ids row n
  add_beside (some existing) io now w replace_ids row n =
      let both = merge_with_existing existing row in
      let io' = io existing.id in
      if leb (tier_rank row.tier) (tier_rank existing.tier)
      then replied io now replace_ids (merged both one existing.id)
          (update_full db io' io' (other w) existing.id both n)
      else add_in_table io now w replace_ids row (delete db io' (other w) existing.id n).0

  -- The part of `add` after the embedding.
  abbrev pub add_row :
      (String → Io) → Instant → Bool → List String → Memory → Node db → AddReply × Node db
  add_row io now skip_dedup replace_ids row n =
      let w = table_for row.tier in
      if skip_dedup
      then replied io now replace_ids (InsertOutcome.added row) (insert db (io row.id) w row n)
      else add_beside (find_exact_content db (other w) row.content row.type replace_ids n) io now w
          replace_ids row n

  abbrev pub add_embedded :
      Option (List Float)
      → (String → Io)
      → Instant
      → AddRequest
      → Memory
      → Node db
      → AddReply × Node db
  add_embedded none io now req row n = (internal, n)
  add_embedded (some v) io now req row n =
      add_row io now req.skip_dedup req.replace_ids (record row { vector = some v }) n

  -- `id` is what the generator gives; `scope_of` is `resolve_scope`.
  unfoldable pub add :
      (String → Io)
      → (String → Option (List Float))
      → (List Memory → Tier → Option String)
      → String
      → Instant
      → AddRequest
      → Node db
      → AddReply × Node db
  unfolding guard_user_voice apply_replace_ids merge_with_existing
  add io embed scope_of id now req n =
      let losers = locate_rows req.replace_ids n in
      let tier = resolve_tier req.tier req.episodic losers req.indexed in
      let row = new_fact id now req tier (scope_of losers tier) in
      if is_blank req.content
      then (bad_request, n)
      else if guard_user_voice req.replace_ids req.user_directed n
      then add_embedded (embed req.content) io now req row n
      else (bad_request, n)

  abbrev pub move :
      (String → Io) → TableName → TableName → String → Memory → Node db → UpdateReply × Node db
  move io from to id moved n =
      (updated moved, insert db (io id) to moved (delete db (io id) from id n).0)

  abbrev pub updated_or : Option Memory → UpdateReply
  updated_or none = not_found
  updated_or (some m) = updated m

  abbrev pub update_found :
      (String → Io)
      → Instant
      → String
      → MemoryPatch
      → AccountScope
      → Option (TableName × Memory)
      → Node db
      → UpdateReply × Node db
  update_found io now id patch scope none n = (not_found, n)
  update_found io now id patch scope (some (w, existing)) n =
      let tier = or_else patch.tier existing.tier in
      let p = pinned tier patch in
      let (row, after) = Edits.update db (io id) w id p now n in
      if not (admits scope existing)
      then (not_found, n)
      else if is_table w (table_for tier)
      then (updated_or row, after)
      else move io w (table_for tier) id
          (record (apply p existing) { tier = tier; updated_at = some now }) n

  abbrev pub update_with :
      Option MemoryPatch → (String → Io) → Instant → UpdateRequest → Node db → UpdateReply × Node db
  update_with none io now req n = (bad_scope, n)
  update_with (some patch) io now req n =
      update_found io now req.id patch req.scope (locate_in (stores_for_read req.episodic) req.id n)
        n

  -- `expand` is the reading of a directory's name.
  unfoldable pub update :
      (String → Io)
      → (String → Option String)
      → Instant
      → UpdateRequest
      → Node db
      → UpdateReply × Node db
  unfolding guard_user_voice apply
  update io expand now req n =
      if is_some req.content && not (guard_user_voice (req.id ∷ []) req.user_directed n)
      then (blocked, n)
      else update_with (patch_of expand req) io now req n

  abbrev delete_in :
      (String → Io) → AccountScope → String → List TableName → Node db → Bool × Node db
  delete_in io scope id [] n = (false, n)
  delete_in io scope id (w ∷ ws) n =
      let rest = delete_in io scope id ws n in
      let (after, was) = delete db (io id) w id n in
      elim (get_row db w id n) [
        | none ↦ rest
        | some m ↦ if admits scope m then (was, after) else (false, n)
      ]

  -- Whether a row was removed. A row that is there is removed, so the loop ends with it.
  unfoldable pub delete_row :
      (String → Io) → AccountScope → String → Option Bool → Node db → Bool × Node db
  delete_row io scope id episodic n = delete_in io scope id (stores_for_read episodic) n

  abbrev text_or : Option String → Option String
  text_or s = filter (λ t. not (is_blank t)) s

  -- `none` is a refusal; else how many rows of both tables were moved.
  unfoldable pub restamp :
      FilePath
      → FilePath
      → (String → String → Bool)
      → (String → Io)
      → String
      → (account_id account_name : Option String) → Node db
      → Option ℕ × Node db
  restamp home tmp like io from account_id account_name n =
      let to : Option String = elim (text_or account_id) [ none ↦ none | some a ↦ some (trim a) ] in
      let name = text_or account_name in
      let (n1, first) =
        restamp_account db home tmp like io TableName.semantic (trim from) to name n in
      let (n2, second) =
        restamp_account db home tmp like io TableName.episodic (trim from) to name n1 in
      if is_blank from then (none, n) else (some (first + second), n2)
