-- ===== src/Tests/Querying.antt =====
-- The properties of the queries at a small store: one rule of LIKE, that of a prefix.
use linggen_memory.Prelude.{
  take, drop, sort_by, ◌+◌, ◌≤◌, String, ◌≡◌, Bool, true, ◌&&◌, is_some, none, some, [], ◌∷◌, arith,
  if◌then◌else◌, All, length,
}
use linggen_memory.Types.{Memory, new, fact, user}
use linggen_memory.Tables.{row_tables}
use linggen_memory.Paths.{FilePath, root_dir, normal}
use linggen_memory.Store.{Node, Io, semantic, get_row}
use linggen_memory.Store.Reads.{same_table}
use linggen_memory.Store.Sweeps.{passes}
use linggen_memory.Store.Filters.{Filters, default, matches, of_origin}
use linggen_memory.Store.Queries.{newest, comes_first, forget}
use linggen_memory.Store.Forgetting
use linggen_memory.Store.Forgetting.{names}
use linggen_memory.Session.{Place, render_index, index_budget_chars, ordered}
use linggen_memory.Session.Budget
use linggen_memory.Session.Budget.{is_filed_at}
use linggen_memory.Hybrid.{Floats, Unicode, Candidate}
use linggen_memory.Hybrid.Top
use linggen_memory.Listing.{list_page}
use linggen_memory.Listing.Pages
use linggen_memory.Listing.Pages.{all_rows}
use linggen_memory.Writes.{stores_for_read}

abbrev home : FilePath
home = root_dir ∷ normal "h" ∷ []

abbrev tmp : FilePath
tmp = root_dir ∷ normal "tmp" ∷ []

abbrev like : String → String → Bool
like s pattern = true

abbrev disk : Io
disk = record { appended = true; rewritten = true }

abbrev row_a : Memory
row_a = record (new "a" 10 "tabs" fact user) { scope = some "/h/w" }

abbrev row_b : Memory
row_b = record (new "b" 20 "spaces" fact user) { scope = some "/h/w" }

abbrev node : Node row_tables
node = record {
  semantic = row_a ∷ row_b ∷ [];
  episodic = [];
  log = record { entries = []; next_seq = 1; file = linggen_memory.Changes.no_lines; fresh = true };
}

abbrev by_user : Filters
by_user = record default { origin = some user }

forget-get_row_example :
    (get_row row_tables semantic "a"
        (forget row_tables home tmp like (λ k. disk) disk semantic by_user node).0
      ≡ (if Forgetting.narrows by_user
            && (same_table semantic semantic
                && passes row_tables
                    (λ m. matches home tmp like by_user m && of_origin (some user) m)
                    (get_row row_tables semantic "a" node))
          then none
          else get_row row_tables semantic "a" node))
    × (is_some (forget row_tables home tmp like (λ k. disk) disk semantic by_user node).1
        ≡ Forgetting.narrows by_user)
unfolding linggen_memory.Tables.row_ids
forget-get_row_example =
    Forgetting.forget-get_row row_tables home tmp like (λ k. disk) disk semantic semantic by_user
      "a" node (omega arith)

abbrev here : Place
here = record {
  home = home;
  cwd = root_dir ∷ normal "h" ∷ normal "w" ∷ [];
  root = root_dir ∷ normal "h" ∷ normal "w" ∷ [];
  chain = (root_dir ∷ normal "h" ∷ normal "w" ∷ []) ∷ [];
}

render_index_lem_example :
    (linggen_memory.Text.Words.char_count (render_index (row_a ∷ row_b ∷ []) here).1
      ≤ index_budget_chars)
    × All (λ m. is_filed_at here.chain m ≡ true) (render_index (row_a ∷ row_b ∷ []) here).0
    × (length (render_index (row_a ∷ row_b ∷ []) here).0
          + (render_index (row_a ∷ row_b ∷ []) here).2
        ≡ length (ordered here (row_a ∷ row_b ∷ [])))
render_index_lem_example = Budget.render_index_lem (row_a ∷ row_b ∷ []) here (omega arith)

-- Stand-ins for the arithmetic of floats and the tables of characters.
abbrev floats : Floats
floats = record {
  add = λ x y. x;
  sub = λ x y. x;
  mul = λ x y. x;
  div = λ x y. x;
  max = λ x y. x;
  ln = λ x. x;
  sqrt = λ x. x;
  of_usize = λ n. n;
  sum = λ xs. 0;
}

abbrev ascii : Unicode
ascii = record { is_alphanumeric = λ c. true; to_lowercase = λ c. c ∷ [] }

abbrev found_a : Candidate
found_a = record { memory = row_a; cosine = 0x3F00_0000; weight = 0x3F80_0000 }

abbrev found_b : Candidate
found_b = record { memory = row_b; cosine = 0x3F40_0000; weight = 0x3F80_0000 }

list_page-all_rows_example :
    list_page row_tables home tmp like none default newest 1 1 node
    ≡ take 1 (
        drop 1 (
          sort_by
            (comes_first newest)
            (all_rows row_tables home tmp like (stores_for_read none) default newest node)))
unfolding linggen_memory.Tables.row_ids
list_page-all_rows_example =
    Pages.list_page-all_rows row_tables home tmp like none default newest 1 1 node (omega arith)
