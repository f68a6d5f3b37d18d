-- ===== src/Listing/Pages.antt =====
-- A page over both tables is a page of all their rows (src/http/memory.rs).
use linggen_memory.Prelude.{
  ℕ, ◌+◌, ◌≤◌, min, String, ◌≡◌, ◌∙◌, sym, ap, Bool, true, false, none, some, Option, List, [], ◌∷◌,
  ◌++◌, arith, take, drop, sort_by, sort_by-IsSorted, IsSorted, append-nil, nil_take,
}
use linggen_memory.Paths.{FilePath}
use linggen_memory.Types.{Memory}
use linggen_memory.Tables.{TableApi}
use linggen_memory.Store.{TableName, semantic, episodic, Node}
use linggen_memory.Store.Filters.{Filters}
use linggen_memory.Store.Queries.{SortOrder, comes_first, found, usize_max}
use linggen_memory.Store.Paging.{answer, list_window, comes_first_trans, comes_first_total}
use linggen_memory.Writes.{stores_for_read}
use linggen_memory.Listing.{list_page, combined}
use linggen_memory.Listing.Merging.{page_of_first, sort-take}

module _ (db : TableApi) (home tmp : FilePath) (like : String → String → Bool) where
  -- Every row of the tables that passes, one table after the other.
  abbrev pub all_rows : List TableName → Filters → SortOrder → Node db → List Memory
  all_rows [] f order n = []
  all_rows (w ∷ ws) f order n = answer db home tmp like w f order n ++ all_rows ws f order n

  page_of_two :
      (order : SortOrder) (l o k : ℕ) (xs ys : List Memory)
      → l + o ≤ k
      → IsSorted (comes_first order) xs
      → IsSorted (comes_first order) ys
      → take l (drop o (sort_by (comes_first order) (take k xs ++ take k ys)))
        ≡ take l (drop o (sort_by (comes_first order) (xs ++ ys)))
  page_of_two order l o k xs ys h sx sy =
      let le = comes_first order in
      sym (page_of_first l o (l + o) (sort_by le (take k xs ++ take k ys)) (omega arith))
      ∙ ap (λ z. take l (drop o z))
          (sort-take le (comes_first_trans order) (l + o) k k xs ys h h sx sy)
      ∙ page_of_first l o (l + o) (sort_by le (xs ++ ys)) (omega arith)

  sorted :
      (w : TableName) (f : Filters) (order : SortOrder) (n : Node db)
      → IsSorted (comes_first order) (answer db home tmp like w f order n)
  sorted w f order n =
      sort_by-IsSorted (comes_first order) (comes_first_trans order) (comes_first_total order)
        (found db home tmp like f w n)

  one_table :
      (w : TableName) (f : Filters) (order : SortOrder) (limit offset k : ℕ) (n : Node db)
      → limit + offset ≤ k
      → take limit (
          drop offset
            (sort_by (comes_first order) (combined db home tmp like (w ∷ []) f order k n)))
        ≡ take limit (drop offset (sort_by (comes_first order) (all_rows (w ∷ []) f order n)))
  one_table w f order limit offset k n h = rw (list_window db home tmp like w f order k 0 n) (
      ap
        (λ z. take limit (
          drop offset
            (sort_by (comes_first order) (take k (answer db home tmp like w f order n) ++ z))))
        (sym (nil_take k))
      ∙ page_of_two order limit offset k (answer db home tmp like w f order n) [] h
          (sorted w f order n) tt)

  -- A page is the page of all rows that pass, of one table or of both as the request says, sorted
  -- together: reading no more than `limit + offset` rows of each table loses none of the page. The
  -- sum must be a machine word.
  pub list_page-all_rows :
      (table : Option Bool) (f : Filters) (order : SortOrder) (limit offset : ℕ) (n : Node db)
      → limit + offset ≤ usize_max
      → list_page db home tmp like table f order limit offset n
        ≡ take limit
            (drop offset (sort_by (comes_first order) (all_rows (stores_for_read table) f order n)))
  unfolding list_page
  list_page-all_rows (some true) f order limit offset n h =
      one_table episodic f order limit offset (min (limit + offset) usize_max) n (omega (arith, h))
  list_page-all_rows (some false) f order limit offset n h =
      one_table semantic f order limit offset (min (limit + offset) usize_max) n (omega (arith, h))
  list_page-all_rows none f order limit offset n h =
      let k = min (limit + offset) usize_max in
      let of_table = λ (w : TableName). answer db home tmp like w f order n in
      rw
        (
          list_window db home tmp like semantic f order k 0 n,
          list_window db home tmp like episodic f order k 0 n,
          append-nil (take k (of_table episodic)),
          append-nil (of_table episodic),
        )
        (page_of_two order limit offset k (of_table semantic) (of_table episodic) (omega (arith, h))
          (sorted semantic f order n) (sorted episodic f order n))
