-- ===== src/Store/Sweeps.antt =====
-- Bulk deletes (`delete_where` and `evict_expired` of src/memory/store.rs): the predicate is a test
-- on rows, and the rows are gone through by the table's ids. What a sweep leaves to read.
use linggen_memory.Prelude.{
  ℕ, String, ◌==◌, eq_iff, ◌≡◌, refl, Bool, false, ◌&&◌, Option, none, some, List, [], ◌∷◌, arith,
  any, length, ltb, if◌then◌else◌,
}
use linggen_memory.Types.{Memory, Instant, effective_timestamp}
use linggen_memory.Tables.{TableApi}
use linggen_memory.Changes.{Op}
use linggen_memory.Store.{
  TableName, semantic, episodic, Io, Node, table_of, with_table, noted, get_row,
}
use linggen_memory.Store.Reads.{same_table}

abbrev pub is_older : Instant → Memory → Bool
is_older cutoff m = ltb (effective_timestamp m) cutoff

module _ (db : TableApi) where
  open db use {Table, get, ids}

  abbrev pub passes : (Memory → Bool) → Option Memory → Bool
  passes p none = false
  passes p (some m) = p m

  -- `ids_where`: the ids of the rows that pass.
  unfoldable pub ids_where : List String → (Memory → Bool) → Table → List String
  ids_where [] p t = []
  ids_where (id ∷ rest) p t =
      let found = ids_where rest p t in if passes p (get t id) then id ∷ found else found

  -- The engine's delete by a predicate.
  unfoldable pub delete_each : List String → Table → Table
  delete_each [] t = t
  delete_each (id ∷ rest) t = delete_each rest (db.delete t id)

  unfoldable pub delete_where : Io → TableName → (Memory → Bool) → Node db → Node db × ℕ
  unfolding ids_where delete_each
  delete_where io w p n =
      let t = table_of db w n in
      let gone = ids_where (ids t) p t in
      (noted db io w Op.delete gone (with_table db w (delete_each gone t) n), length gone)

  unfoldable pub evict_expired : Io → TableName → Instant → Node db → Node db × ℕ
  unfolding delete_where
  evict_expired io w cutoff n = delete_where io w (is_older cutoff) n

  get-delete_each :
      (gone : List String) (t : Table) (k : String)
      → get (delete_each gone t) k ≡ (if any (λ j. j == k) gone then none else get t k)
  unfolding delete_each
  get-delete_each [] t k = refl
  get-delete_each (id ∷ rest) t k =
      ground (arith, get-delete_each rest (db.delete t id) k, db.get-delete t id k)

  any-ids_where :
      (all : List String) (p : Memory → Bool) (t : Table) (k : String)
      → any (λ j. j == k) (ids_where all p t) ≡ (any (λ j. j == k) all && passes p (get t k))
  unfolding ids_where
  any-ids_where [] p t k = refl
  any-ids_where (id ∷ rest) p t k = ground (arith, any-ids_where rest p t k, eq_iff id k)

  -- The rows that a sweep names are those that pass.
  pub any-ids_where_of_table :
      (p : Memory → Bool) (t : Table) (k : String)
      → any (λ j. j == k) (ids_where (ids t) p t) ≡ passes p (get t k)
  any-ids_where_of_table p t k = ground (arith, any-ids_where (ids t) p t k, db.get_of_ids t k)

  pub get-swept :
      (p : Memory → Bool) (t : Table) (k : String)
      → get (delete_each (ids_where (ids t) p t) t) k
        ≡ (if passes p (get t k) then none else get t k)
  get-swept p t k =
      ground (arith, get-delete_each (ids_where (ids t) p t) t k, any-ids_where_of_table p t k)

  pub delete_where-get_row :
      (io : Io) (w v : TableName) (p : Memory → Bool) (k : String) (n : Node db)
      → get_row db v k (delete_where io w p n).0
        ≡ (if same_table w v && passes p (get_row db w k n) then none else get_row db v k n)
  unfolding delete_where get_row
  delete_where-get_row io semantic semantic p k n = get-swept p n.semantic k
  delete_where-get_row io semantic episodic p k n = refl
  delete_where-get_row io episodic semantic p k n = refl
  delete_where-get_row io episodic episodic p k n = get-swept p n.episodic k
