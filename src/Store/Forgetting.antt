-- ===== src/Store/Forgetting.antt =====
-- What the bulk edits by filter leave to read.
use linggen_memory.Prelude.{
  ◌≤◌, String, ◌==◌, eq_iff, ◌≡◌, ◌∙◌, refl, sym, ap, Bool, true, false, not, ◌&&◌, ◌||◌, Option,
  none, some, List, [], ◌∷◌, arith, any, length, leb, keep, if◌then◌else◌, is_some, inl, inr,
  Bool-cases, Option-cases, sort_by, any-sort_by, length-sort_by, take_all, any-keep, any_twice,
  length-keep,
}
use linggen_memory.Paths.{FilePath}
use linggen_memory.Types.{Memory, Origin}
use linggen_memory.Tables.{TableApi}
use linggen_memory.Store.{TableName, semantic, episodic, Io, Node, table_of, get_row, delete}
use linggen_memory.Store.Filters.{
  Filters, is_empty_filter, is_nil, matches, of_origin, apply_origin_filter,
}
use linggen_memory.Store.Reads.{same_table}
use linggen_memory.Store.Sweeps.{passes, delete_where-get_row}
use linggen_memory.Store.Queries.{
  usize_max, SortOrder, newest, comes_first, rows_where, found, list, delete_rows, forget,
}

abbrev pub names : String → List Memory → Bool
names k ms = any (λ m. m.id == k) ms

abbrev has_any {ℓ} : {A : Type ℓ} → List A → Bool
has_any [] = false
has_any (x ∷ xs) = true

has_any-is_nil {ℓ} : {A : Type ℓ} (xs : List A) → not (is_nil xs) ≡ has_any xs
has_any-is_nil [] = refl
has_any-is_nil (x ∷ xs) = refl

-- The filter names apps, types or scopes, or sets one of the criteria that narrow. The types that it
-- excludes, the account and the wish for expired rows are none.
unfoldable pub narrows : Filters → Bool
narrows f =
    has_any f.apps
    || has_any f.types
    || has_any f.scope_in
    || is_some f.scope_root
    || f.no_skills
    || is_some f.indexed
    || is_some f.origin
    || is_some f.outcome
    || is_some f.tier
    || is_some f.since
    || is_some f.until
    || is_some f.created_since
    || is_some f.source_session
    || is_some f.superseded_by

narrows_lem : (f : Filters) → not (is_empty_filter f) ≡ narrows f
unfolding is_empty_filter narrows
narrows_lem f =
    ground (arith, has_any-is_nil f.apps, has_any-is_nil f.types, has_any-is_nil f.scope_in)

module _ (db : TableApi) where
  open db use {Table, get, ids}

  pub get_row-delete :
      (io : Io) (w v : TableName) (id k : String) (n : Node db)
      → get_row db v k (delete db io w id n).0
        ≡ (if same_table w v && (id == k) then none else get_row db v k n)
  unfolding get_row delete
  get_row-delete io semantic semantic id k n = db.get-delete n.semantic id k
  get_row-delete io semantic episodic id k n = refl
  get_row-delete io episodic semantic id k n = refl
  get_row-delete io episodic episodic id k n = db.get-delete n.episodic id k

  get_row-delete_rows :
      (io : String → Io) (w v : TableName) (ms : List Memory) (k : String) (n : Node db)
      → get_row db v k (delete_rows db io w ms n).0
        ≡ (if same_table w v && names k ms then none else get_row db v k n)
  unfolding delete_rows
  get_row-delete_rows io w v [] k n = ground arith
  get_row-delete_rows io w v (m ∷ ms) k n = ground (
    arith,
    get_row-delete_rows io w v ms k (delete db (io m.id) w m.id n).0,
    get_row-delete (io m.id) w v m.id k n,
  )

  names-rows_where :
      (ks : List String) (p q : Memory → Bool) (t : Table) (k : String)
      → names k (keep q (rows_where db ks p t))
        ≡ (any (λ j. j == k) ks && passes db (λ m. p m && q m) (get t k))
  unfolding rows_where
  names-rows_where [] p q t k = refl
  names-rows_where (j ∷ ks) p q t k = elim (Option-cases (get t j)) [
    | inl gone ↦ ground (arith, gone, names-rows_where ks p q t k, eq_iff j k)
    | inr (m, here) ↦ ground (
      arith,
      here,
      names-rows_where ks p q t k,
      db.get-id t j m here,
      eq_iff m.id j,
      eq_iff m.id k,
      eq_iff j k,
    )
  ]

  -- The rows of a query are those that pass, by their ids.
  pub names_of_table :
      (p q : Memory → Bool) (t : Table) (k : String)
      → names k (keep q (rows_where db (ids t) p t)) ≡ passes db (λ m. p m && q m) (get t k)
  names_of_table p q t k = ground (arith, names-rows_where (ids t) p q t k, db.get_of_ids t k)

  length-rows_where :
      (ks : List String) (p : Memory → Bool) (t : Table) → length (rows_where db ks p t) ≤ length ks
  unfolding rows_where
  length-rows_where [] p t = omega arith
  length-rows_where (k ∷ ks) p t = elim (Option-cases (get t k)) [
    | inl gone ↦ ground (arith, gone, length-rows_where ks p t)
    | inr (m, here) ↦ ground (arith, here, length-rows_where ks p t)
  ]

  passes-of_origin :
      (p : Memory → Bool) (o : Option Origin) (m : Option Memory)
      → is_some o ≡ false
      → passes db (λ m. p m && of_origin o m) m ≡ passes db p m
  passes-of_origin p none none h = refl
  passes-of_origin p none (some m) h = ground arith
  passes-of_origin p (some o) m h = cc

  module _ (home tmp : FilePath) (like : String → String → Bool) where
    length-found :
        (f : Filters) (w : TableName) (n : Node db)
        → length (found db home tmp like f w n) ≤ length (ids (table_of db w n))
    length-found f w n = omega (
      arith,
      length-keep (of_origin f.origin)
          (rows_where db (ids (table_of db w n)) (matches home tmp like f) (table_of db w n)),
      length-rows_where (ids (table_of db w n)) (matches home tmp like f) (table_of db w n),
    )

    -- A list with no end is the whole sorted answer.
    pub list_whole :
        (w : TableName) (f : Filters) (order : SortOrder) (n : Node db)
        → length (ids (table_of db w n)) ≤ usize_max
        → list db home tmp like w f order usize_max 0 n
          ≡ sort_by (comes_first order) (found db home tmp like f w n)
    unfolding list
    list_whole w f order n fits =
        let facts = sort_by (comes_first order) (found db home tmp like f w n) in
        let size = length-sort_by (comes_first order) (found db home tmp like f w n) in
        elim (Bool-cases (leb (length facts) 0)) [
          | inl empty ↦ rw empty (sym (is_nil facts (ground (arith, empty))))
          | inr more ↦ rw more (take_all usize_max facts (omega (arith, size, length-found f w n)))
        ]
      where
        is_nil : (xs : List Memory) → length xs ≡ 0 → xs ≡ []
        is_nil [] h = refl
        is_nil (x ∷ xs) h = absurd (omega arith)

    abbrev victims : TableName → Filters → Node db → List Memory
    victims w f n = list db home tmp like w f newest usize_max 0 n

    names-victims :
        (w : TableName) (f : Filters) (k : String) (n : Node db)
        → length (ids (table_of db w n)) ≤ usize_max
        → names k (apply_origin_filter f.origin (victims w f n))
          ≡ passes db
              (λ m. matches home tmp like f m && of_origin f.origin m)
              (get (table_of db w n) k)
    names-victims w f k n fits =
        let q = of_origin f.origin in
        let rows =
          rows_where db (ids (table_of db w n)) (matches home tmp like f) (table_of db w n) in
        ap (λ l. names k (keep q l)) (list_whole w f newest n fits)
        ∙ any-keep (λ m. m.id == k) q (sort_by (comes_first newest) (keep q rows))
        ∙ any-sort_by (comes_first newest) (λ m. q m && (m.id == k)) (keep q rows)
        ∙ any-keep (λ m. q m && (m.id == k)) q rows
        ∙ any_twice (λ m. m.id == k) q rows
        ∙ sym (any-keep (λ m. m.id == k) q rows)
        ∙ names_of_table (matches home tmp like f) q (table_of db w n) k

    -- Forgetting by a filter: one that sets none of the criteria that narrow is refused, also if it
    -- excludes types, chooses an account or asks for expired rows, and no row has gone. Any other
    -- takes from its table exactly the rows that pass the filter, the origin included (whether they
    -- go one by one or at once), and every other row of both tables is read as before.
    pub forget-get_row :
        (io : String → Io) (io' : Io) (w v : TableName) (f : Filters) (k : String) (n : Node db)
        → length (ids (table_of db w n)) ≤ usize_max
        → (get_row db v k (forget db home tmp like io io' w f n).0 ≡ (
            if narrows f
              && (same_table w v
                  && passes db
                      (λ m. matches home tmp like f m && of_origin f.origin m)
                      (get_row db w k n))
            then none
            else get_row db v k n))
          × (is_some (forget db home tmp like io io' w f n).1 ≡ narrows f)
    unfolding forget get_row
    forget-get_row io io' w v f k n fits =
        rw (sym (narrows_lem f)) (elim (Bool-cases (is_empty_filter f)) [
          | inl empty ↦ rw empty (refl, refl)
          | inr given ↦ elim (Bool-cases (is_some f.origin)) [
            | inl from ↦
                rw (given, from)
                  (
                    get_row-delete_rows io w v (apply_origin_filter f.origin (victims w f n)) k n
                        ∙ ap (λ b. if same_table w v && b then none else get_row db v k n)
                            (names-victims w f k n fits),
                    refl,
                  )
            | inr any_origin ↦
                rw (given, any_origin)
                  (
                    delete_where-get_row db io' w v (matches home tmp like f) k n
                        ∙ ap (λ b. if same_table w v && b then none else get_row db v k n)
                            (sym (
                              passes-of_origin (matches home tmp like f) f.origin
                                (get (table_of db w n) k) any_origin)),
                    refl,
                  )
          ]
        ])
