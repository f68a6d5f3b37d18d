-- ===== src/Store/Queries.antt =====
-- The queries and bulk edits by filter (src/memory/store.rs): `list`, `core_facts`, `forget`,
-- `restamp_account` and the counts. A query meets the rows in the order of the table's ids.
use linggen_memory.Prelude.{
  ℕ, suc, ◌+◌, ◌-◌, ◌^◌, String, Bool, true, Option, none, some, List, [], ◌∷◌, eqb, leb, is_some,
  if◌then◌else◌, length, take, drop, sort_by,
}
use linggen_memory.Paths.{FilePath}
use linggen_memory.Types.{Memory, Tier, activity_timestamp}
use linggen_memory.Tables.{TableApi}
use linggen_memory.Store.{TableName, Io, Node, table_of, upsert, delete}
use linggen_memory.Store.Filters.{
  Filters, AccountScope, default, is_empty_filter, matches, apply_origin_filter,
}
use linggen_memory.Store.Sweeps.{ids_where, delete_where}

abbrev pub usize_max : ℕ
usize_max = 2 ^ 64 - 1

pub data SortOrder : Type 0 where
  newest oldest : SortOrder

abbrev pub comes_first : SortOrder → Memory → Memory → Bool
comes_first newest a b = leb (activity_timestamp b) (activity_timestamp a)
comes_first oldest a b = leb (activity_timestamp a) (activity_timestamp b)

module _ (db : TableApi) where
  open db use {Table, get, ids}

  abbrev pub with_row : (Memory → Bool) → Option Memory → List Memory → List Memory
  with_row p none rest = rest
  with_row p (some m) rest = if p m then m ∷ rest else rest

  -- `collect_query`: the rows that pass.
  unfoldable pub rows_where : List String → (Memory → Bool) → Table → List Memory
  rows_where [] p t = []
  rows_where (k ∷ ks) p t = with_row p (get t k) (rows_where ks p t)

  unfoldable pub count_filtered : (Memory → Bool) → TableName → Node db → ℕ
  count_filtered p w n = length (ids_where db (ids (table_of db w n)) p (table_of db w n))

  unfoldable pub count_expired : TableName → Node db → ℕ
  count_expired w n = count_filtered (λ m. is_some m.expired_at) w n

  -- Deletes one by one; the count is of the rows that were there.
  unfoldable pub delete_rows : (String → Io) → TableName → List Memory → Node db → Node db × ℕ
  delete_rows io w [] n = (n, 0)
  delete_rows io w (v ∷ vs) n =
      let (after, was) = delete db (io v.id) w v.id n in
      let (done, removed) = delete_rows io w vs after in (done, (if was then 1 else 0) + removed)

  -- The rows of a query, each written back with another account.
  unfoldable pub upsert_rows :
      (String → Io) → (Memory → Memory) → TableName → List Memory → Node db → Node db × ℕ
  upsert_rows io g w [] n = (n, 0)
  upsert_rows io g w (m ∷ ms) n =
      let (done, moved) = upsert_rows io g w ms (upsert db (io m.id) w (g m) n) in (done, suc moved)

  abbrev pub stamped : Option String → Option String → Memory → Memory
  stamped to name m = record m { account_id = to; account_name = if is_some to then name else none }

  module _ (home tmp : FilePath) (like : String → String → Bool) where
    abbrev pub found : Filters → TableName → Node db → List Memory
    found f w n =
        apply_origin_filter f.origin
          (rows_where (ids (table_of db w n)) (matches home tmp like f) (table_of db w n))

    unfoldable pub list :
        TableName → Filters → SortOrder → (limit offset : ℕ) → Node db → List Memory
    list w f order limit offset n =
        let facts = sort_by (comes_first order) (found f w n) in
        if eqb limit 0
        then []
        else if leb (length facts) offset
        then []
        else take limit (drop offset facts)

    unfoldable pub core_facts : TableName → Node db → List Memory
    core_facts w n = sort_by (comes_first newest) (
        rows_where (ids (table_of db w n))
          (matches home tmp like (record default { tier = some Tier.core })) (table_of db w n))

    -- A refusal, or how many rows went.
    unfoldable pub forget : (String → Io) → Io → TableName → Filters → Node db → Node db × Option ℕ
    forget io io' w f n =
        let victims = apply_origin_filter f.origin (list w f newest usize_max 0 n) in
        let one_by_one = delete_rows io w victims n in
        let at_once = delete_where db io' w (matches home tmp like f) n in
        if is_empty_filter f
        then (n, none)
        else if is_some f.origin
        then (one_by_one.0, some one_by_one.1)
        else (at_once.0, some at_once.1)

    unfoldable pub restamp_account :
        (String → Io) → TableName → String → (to name : Option String) → Node db → Node db × ℕ
    restamp_account io w from to name n =
        let f = record default { account = AccountScope.id from; include_expired = true } in
        upsert_rows io (stamped to name) w
          (rows_where (ids (table_of db w n)) (matches home tmp like f) (table_of db w n)) n
