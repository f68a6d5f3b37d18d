-- ===== src/Store/Edits.antt =====
-- Edits of rows (src/memory/store.rs): patches, the merging insert, archiving and bulk deletes.
-- The clock is an argument. A query goes through the rows in the order of the table's ids.
use linggen_memory.Prelude.{
  String, ◌==◌, Bool, not, ◌&&◌, ◌||◌, Option, none, some, List, [], ◌∷◌, if◌then◌else◌, ltb,
  is_some, or_else, any,
}
use linggen_memory.Types.{Memory, MemoryType, Tier, Origin, Outcome, Instant, Float, type_str}
use linggen_memory.Tables.{TableApi}
use linggen_memory.Changes.{Op}
use linggen_memory.Text.{byte_length}
use linggen_memory.Store.{TableName, Io, Node, table_of, with_table, noted, upsert, get_row, delete}

-- A field of a patch: `none` leaves it, `some` sets it.
pub record MemoryPatch : Type 0 where
  pub content : Option String
  pub summary : Option (Option String)
  pub indexed : Option Bool
  pub type : Option MemoryType
  pub tier : Option Tier
  pub origin : Option Origin
  pub outcome : Option (Option Outcome)
  pub scope : Option (Option String)
  pub occurred_at : Option (Option Instant)
  pub source_session : Option (Option String)
  pub host : Option (Option String)
  pub vector : Option (Option (List Float))
  pub account_id : Option (Option String)
  pub account_name : Option (Option String)

unfoldable pub apply : MemoryPatch → Memory → Memory
apply p f = record f {
  content = or_else p.content f.content;
  summary = or_else p.summary f.summary;
  indexed = or_else p.indexed f.indexed;
  type = or_else p.type f.type;
  tier = or_else p.tier f.tier;
  origin = or_else p.origin f.origin;
  outcome = or_else p.outcome f.outcome;
  scope = or_else p.scope f.scope;
  occurred_at = or_else p.occurred_at f.occurred_at;
  source_session = or_else p.source_session f.source_session;
  host = or_else p.host f.host;
  vector = or_else p.vector f.vector;
  account_id = or_else p.account_id f.account_id;
  account_name = or_else p.account_name f.account_name;
}

-- The first value if it is there, else the second.
abbrev pub preferred : {A : Type 0} → Option A → Option A → Option A
preferred first second = if is_some first then first else second

abbrev pub is_longer : Memory → Memory → Bool
is_longer candidate existing = ltb (byte_length existing.content) (byte_length candidate.content)

unfoldable pub merge_fact : Memory → Memory → Memory
merge_fact existing candidate =
    let longer = is_longer candidate existing in
    record existing {
      content = if longer then candidate.content else existing.content;
      vector = if longer then candidate.vector else existing.vector;
      outcome = preferred candidate.outcome existing.outcome;
      scope = preferred existing.scope candidate.scope;
      summary = preferred existing.summary candidate.summary;
      indexed = existing.indexed || candidate.indexed;
      occurred_at = preferred candidate.occurred_at existing.occurred_at;
      source_session = preferred candidate.source_session existing.source_session;
      host = preferred candidate.host existing.host;
    }

pub data InsertOutcome : Type 0 where
  added : Memory → InsertOutcome
  merged : (fact : Memory) (similarity : Float) (previous_id : String) → InsertOutcome

-- 1.0 as a 32-bit float.
abbrev pub one : Float
one = 0x3F800000

abbrev pub is_exact : String → MemoryType → List String → Memory → Bool
is_exact content type except m =
    (m.content == content)
    && (type_str m.type == type_str type)
    && not (is_some m.expired_at)
    && not (any (λ j. j == m.id) except)

module _ (db : TableApi) where
  open db use {Table, get, ids}

  abbrev pub find_on : Option Memory → (Memory → Bool) → Option Memory → Option Memory
  find_on none p later = later
  find_on (some m) p later = if p m then some m else later

  -- The first row that passes, in the order of the ids.
  unfoldable pub find_from : List String → (Memory → Bool) → Table → Option Memory
  find_from [] p t = none
  find_from (id ∷ rest) p t = find_on (get t id) p (find_from rest p t)

  unfoldable pub find_exact_content :
      TableName → String → MemoryType → List String → Node db → Option Memory
  unfolding find_from
  find_exact_content w content type except n =
      let t = table_of db w n in find_from (ids t) (is_exact content type except) t

  -- `insert` of one row.
  unfoldable pub insert : Io → TableName → Memory → Node db → Node db
  insert io w m n =
      noted db io w Op.upsert (m.id ∷ []) (with_table db w (db.add (table_of db w n) m) n)

  abbrev pub insert_on : Option Memory → Io → TableName → Memory → Node db → InsertOutcome × Node db
  insert_on none io w fact n = (added fact, insert io w fact n)
  insert_on (some existing) io w fact n = (
    merged (merge_fact existing fact) one existing.id,
    upsert db io w (merge_fact existing fact) n,
  )

  unfoldable pub insert_with_dedup_except :
      Io → TableName → Memory → List String → Node db → InsertOutcome × Node db
  unfolding insert find_exact_content merge_fact
  insert_with_dedup_except io w fact except n =
      insert_on (find_exact_content w fact.content fact.type except n) io w fact n

  -- A read, a change of the row, and a write back.
  abbrev pub rewrite_on :
      (Memory → Memory) → Option Memory → Io → TableName → Node db → Option Memory × Node db
  rewrite_on f none io w n = (none, n)
  rewrite_on f (some m) io w n = (some (f m), upsert db io w (f m) n)

  unfoldable pub update :
      Io → TableName → String → MemoryPatch → Instant → Node db → Option Memory × Node db
  update io w id patch now n =
      rewrite_on (λ m. record (apply patch m) { updated_at = some now }) (get_row db w id n) io w n

  unfoldable pub update_quiet :
      Io → TableName → String → MemoryPatch → Node db → Option Memory × Node db
  update_quiet io w id patch n = rewrite_on (apply patch) (get_row db w id n) io w n

  unfoldable pub expire : Io → TableName → String → String → Instant → Node db → Bool × Node db
  expire io w id successor now n =
      let (found, after) =
        rewrite_on (λ m. record m { expired_at = some now; superseded_by = some successor })
          (get_row db w id n) io w n in
      (is_some found, after)

  unfoldable pub update_full : Io → Io → TableName → String → Memory → Node db → Node db
  update_full io io' w id replacement n =
      let after = upsert db io w replacement n in
      if replacement.id == id then after else (delete db io' w id after).0
