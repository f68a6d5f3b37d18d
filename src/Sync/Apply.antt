-- ===== src/Sync/Apply.antt =====
-- What a page's rows and tombstones make of a replica's rows.
use linggen_memory.Prelude.{
  String, ◌==◌, eq_iff, ◌≡◌, refl, ap, inl, inr, true, none, some, List, [], ◌∷◌, ◌&&◌, arith,
  if◌then◌else◌, Option-cases, is_some, not,
}
use linggen_memory.Types.{Memory}
use linggen_memory.Tables.{TableApi}
use linggen_memory.Changes.{Entry}
use linggen_memory.Changes.Latest.{occurs}
use linggen_memory.Store.{TableName, semantic, episodic, Io, Node, upsert, delete}
use linggen_memory.Sync.{current, bodies, put, put_all, delete_both, delete_all, apply_rows}

module _ (db : TableApi) (io : TableName → String → Io) where
  -- A row goes where the primary keeps it, and nowhere else.
  pub current-put :
      (w : TableName) (m : Memory) (k : String) (n : Node db)
      → current db k (put db io (w, m) n) ≡ (if m.id == k then some (w, m) else current db k n)
  unfolding current put upsert delete
  current-put semantic m k n =
      ground (arith, db.get-upsert n.semantic m k, db.get-delete n.episodic m.id k)
  current-put episodic m k n =
      ground (arith, db.get-upsert n.episodic m k, db.get-delete n.semantic m.id k)

  pub current-delete_both :
      (id k : String) (n : Node db)
      → current db k (delete_both db io id n) ≡ (if id == k then none else current db k n)
  unfolding current delete_both delete
  current-delete_both id k n =
      ground (arith, db.get-delete n.semantic id k, db.get-delete n.episodic id k)

module _ (db : TableApi) where
  located-id :
      (n : Node db) (k : String) (w : TableName) (m : Memory)
      → current db k n ≡ some (w, m)
      → (m.id == k) ≡ true
  unfolding current
  located-id n k w m h = ground (arith, db.get-id n.semantic k m, db.get-id n.episodic k m)

  same_row : (n : Node db) (j k : String) → (j == k) ≡ true → current db j n ≡ current db k n
  same_row n j k h = ap (λ i. current db i n) ((eq_iff j k).0 h)

module _ (db : TableApi) (io : TableName → String → Io) (p : Node db) where
  -- The rows of a page for the changes `es` of the primary `p`.
  current-put_all :
      (es : List Entry) (k : String) (n : Node db)
      → current db k (put_all db io (bodies db p es).0 n)
        ≡ (if occurs k es && is_some (current db k p) then current db k p else current db k n)
  unfolding put_all bodies
  current-put_all [] k n = refl
  current-put_all (e ∷ es) k n = elim (Option-cases (current db e.id p)) [
    | inl gone ↦ rw gone (ground (arith, current-put_all es k n, same_row db p e.id k, gone))
    | inr ((w, m), found) ↦
        let same = located-id db p e.id w m found in
        rw found (
          ground (
            arith,
            current-put_all es k (put db io (w, m) n),
            current-put db io w m k n,
            same,
            eq_iff m.id e.id,
            eq_iff m.id k,
            eq_iff e.id k,
            same_row db p e.id k,
            found,
          ))
  ]

  current-delete_all :
      (es : List Entry) (k : String) (n : Node db)
      → current db k (delete_all db io (bodies db p es).1 n)
        ≡ (if occurs k es && not (is_some (current db k p)) then none else current db k n)
  unfolding delete_all bodies
  current-delete_all [] k n = refl
  current-delete_all (e ∷ es) k n = elim (Option-cases (current db e.id p)) [
    | inl gone ↦ rw gone (
        ground (
          arith,
          current-delete_all es k (delete_both db io e.id n),
          current-delete_both db io e.id k n,
          same_row db p e.id k,
          gone,
        ))
    | inr (r, found) ↦
        rw found (ground (arith, current-delete_all es k n, same_row db p e.id k, found))
  ]

  -- After a page for the changes `es`, the replica has for each id that changed exactly what the
  -- primary has (a row in its table, or nothing), and every other id as before.
  pub current-apply_rows :
      (es : List Entry) (k : String) (n : Node db)
      → current db k (apply_rows db io (bodies db p es).0 (bodies db p es).1 n)
        ≡ (if occurs k es then current db k p else current db k n)
  unfolding apply_rows
  current-apply_rows es k n =
      ground (
        arith,
        current-delete_all es k (put_all db io (bodies db p es).0 n),
        current-put_all es k n,
      )
