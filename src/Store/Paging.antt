-- ===== src/Store/Paging.antt =====
-- The pages of a list: windows of one sorted answer.
use linggen_memory.Prelude.{
  ℕ, ◌+◌, ◌≤◌, String, ◌==◌, ◌≡◌, ◌∙◌, refl, sym, ap, subst, Bool, true, false, ◌&&◌, List, ◌++◌,
  arith, length, take, drop, leb, leb→le, eqb, eqb_iff, inl, inr, Bool-cases, sort_by, IsSorted,
  sort_by-IsSorted, any-sort_by, nil_take, take-append-take, drop-drop, drop_past,
}
use linggen_memory.Paths.{FilePath}
use linggen_memory.Types.{Memory}
use linggen_memory.Tables.{TableApi}
use linggen_memory.Store.{TableName, Node, table_of, get_row}
use linggen_memory.Store.Filters.{Filters, matches, of_origin}
use linggen_memory.Store.Sweeps.{passes}
use linggen_memory.Store.Queries.{
  usize_max, SortOrder, newest, oldest, comes_first, rows_where, found, list,
}
use linggen_memory.Store.Forgetting.{names, names_of_table, list_whole}

pub comes_first_trans :
    (order : SortOrder) (a b c : Memory)
    → comes_first order a b ≡ true
    → comes_first order b c ≡ true
    → comes_first order a c ≡ true
comes_first_trans newest a b c h k = ground arith
comes_first_trans oldest a b c h k = ground arith

pub comes_first_total :
    (order : SortOrder) (a b : Memory)
    → comes_first order a b ≡ false
    → comes_first order b a ≡ true
comes_first_total newest a b h = ground arith
comes_first_total oldest a b h = ground arith

module _ (db : TableApi) (home tmp : FilePath) (like : String → String → Bool) where
  abbrev pub answer : TableName → Filters → SortOrder → Node db → List Memory
  answer w f order n = sort_by (comes_first order) (found db home tmp like f w n)

  pub list_window :
      (w : TableName) (f : Filters) (order : SortOrder) (limit offset : ℕ) (n : Node db)
      → list db home tmp like w f order limit offset n
        ≡ take limit (drop offset (answer w f order n))
  unfolding list
  list_window w f order limit offset n = elim (Bool-cases (eqb limit 0)) [
    | inl none_asked ↦
        rw none_asked (
          sym
            (ap (λ l. take l (drop offset (answer w f order n))) ((eqb_iff limit 0).0 none_asked)))
    | inr asked ↦ rw asked (elim (Bool-cases (leb (length (answer w f order n)) offset)) [
      | inl past ↦ rw past (
          sym (
            ap (take limit) (drop_past offset (answer w f order n) (leb→le _ offset past))
            ∙ nil_take limit))
      | inr before ↦ rw before refl
    ])
  ]

  -- In a table whose row count is a machine word: the whole list is sorted by the time of the last
  -- activity, as the order says, and names an id exactly if the row under it passes the filter, the
  -- origin included; and two pages, the second from where the first ends, are together the page of
  -- their joint length.
  pub list_pages :
      (w : TableName) (f : Filters) (order : SortOrder) (k : String) (l l' o : ℕ) (n : Node db)
      → length (db.ids (table_of db w n)) ≤ usize_max
      → IsSorted (comes_first order) (list db home tmp like w f order usize_max 0 n)
        × (names k (list db home tmp like w f order usize_max 0 n)
            ≡ passes db (λ m. matches home tmp like f m && of_origin f.origin m) (get_row db w k n))
        × (list db home tmp like w f order l o n ++ list db home tmp like w f order l' (o + l) n
            ≡ list db home tmp like w f order (l + l') o n)
  unfolding get_row
  list_pages w f order k l l' o n fits =
      let rows =
        rows_where db (db.ids (table_of db w n)) (matches home tmp like f) (table_of db w n) in
      let whole = list_whole db home tmp like w f order n fits in
      (
        subst (IsSorted (comes_first order)) (sym whole) (
            sort_by-IsSorted (comes_first order) (comes_first_trans order) (comes_first_total order)
              (found db home tmp like f w n)),
        ap (names k) whole
            ∙ any-sort_by (comes_first order) (λ m. m.id == k) (found db home tmp like f w n)
            ∙ names_of_table db (matches home tmp like f) (of_origin f.origin) (table_of db w n) k,
        ap (λ p. p ++ list db home tmp like w f order l' (o + l) n) (list_window w f order l o n)
            ∙ ap (λ p. take l (drop o (answer w f order n)) ++ p)
                (list_window w f order l' (o + l) n
                  ∙ ap (take l') (sym (drop-drop o l (answer w f order n))))
            ∙ take-append-take l l' (drop o (answer w f order n))
            ∙ sym (list_window w f order (l + l') o n),
      )
