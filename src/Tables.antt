-- ===== src/Tables.antt =====
-- The database tables under the store: a third-party engine, taken as an interface. A table is
-- addressed by row id; the laws are those of an
-- id-keyed merge, an append, a delete by id and a point query.
use linggen_memory.Prelude.{
  String, ◌==◌, eq_iff, ◌≡◌, refl, true, false, Option, none, some, List, [], ◌∷◌, ◌++◌, arith,
  if◌then◌else◌, any,
}
use linggen_memory.Types.{Memory}

pub record TableApi : Type 1 where
  pub Table : Type 0
  pub get : Table → String → Option Memory
  pub upsert : Table → Memory → Table
  -- Appends a row and does not look for its id.
  pub add : Table → Memory → Table
  pub delete : Table → String → Table
  pub ids : Table → List String
  pub get-id : (t : Table) (k : String) (m : Memory) → get t k ≡ some m → (m.id == k) ≡ true
  pub get-upsert :
      (t : Table) (m : Memory) (k : String)
      → get (upsert t m) k ≡ (if m.id == k then some m else get t k)
  pub get-add :
      (t : Table) (m : Memory) (k : String)
      → get t m.id ≡ none
      → get (add t m) k ≡ (if m.id == k then some m else get t k)
  pub get-delete :
      (t : Table) (j k : String) → get (delete t j) k ≡ (if j == k then none else get t k)
  pub get_of_ids : (t : Table) (k : String) → any (λ j. j == k) (ids t) ≡ false → get t k ≡ none

-- An instance: a table as an association list, where each row stands under its own id.
abbrev pub Rows : Type 0
Rows = List Memory

unfoldable pub find_row : Rows → String → Option Memory
find_row [] k = none
find_row (m ∷ t) k = if m.id == k then some m else find_row t k

unfoldable pub put_row : Rows → Memory → Rows
put_row [] m = m ∷ []
put_row (x ∷ t) m = let rest = put_row t m in if x.id == m.id then m ∷ t else x ∷ rest

unfoldable pub drop_row : Rows → String → Rows
drop_row [] k = []
drop_row (x ∷ t) k = let rest = drop_row t k in if x.id == k then rest else x ∷ rest

unfoldable pub row_ids : Rows → List String
row_ids [] = []
row_ids (x ∷ t) = x.id ∷ row_ids t

pub find_row-id : (t : Rows) (k : String) (m : Memory) → find_row t k ≡ some m → (m.id == k) ≡ true
unfolding find_row
find_row-id [] k m h = cc
find_row-id (x ∷ t) k m h = ground (arith, find_row-id t k m)

pub find_row-put_row :
    (t : Rows) (m : Memory) (k : String)
    → find_row (put_row t m) k ≡ (if m.id == k then some m else find_row t k)
unfolding find_row put_row
find_row-put_row [] m k = refl
find_row-put_row (x ∷ t) m k =
    ground (arith, find_row-put_row t m k, eq_iff x.id m.id, eq_iff m.id k, eq_iff x.id k)

unfoldable pub add_row : Rows → Memory → Rows
add_row t m = t ++ m ∷ []

pub find_row-add_row :
    (t : Rows) (m : Memory) (k : String)
    → find_row t m.id ≡ none
    → find_row (add_row t m) k ≡ (if m.id == k then some m else find_row t k)
unfolding find_row add_row
find_row-add_row [] m k h = refl
find_row-add_row (x ∷ t) m k h =
    ground (arith, find_row-add_row t m k, h, eq_iff x.id m.id, eq_iff m.id k, eq_iff x.id k)

pub find_row-drop_row :
    (t : Rows) (j k : String) → find_row (drop_row t j) k ≡ (if j == k then none else find_row t k)
unfolding find_row drop_row
find_row-drop_row [] j k = ground arith
find_row-drop_row (x ∷ t) j k =
    ground (arith, find_row-drop_row t j k, eq_iff x.id j, eq_iff j k, eq_iff x.id k)

pub find_row_of_ids :
    (t : Rows) (k : String) → any (λ j. j == k) (row_ids t) ≡ false → find_row t k ≡ none
unfolding find_row row_ids
find_row_of_ids [] k h = refl
find_row_of_ids (x ∷ t) k h = ground (arith, find_row_of_ids t k)

abbrev pub row_tables : TableApi
row_tables = record {
  Table = Rows;
  get = find_row;
  upsert = put_row;
  add = add_row;
  delete = drop_row;
  ids = row_ids;
  get-id = find_row-id;
  get-upsert = find_row-put_row;
  get-add = find_row-add_row;
  get-delete = find_row-drop_row;
  get_of_ids = find_row_of_ids;
}
