-- ===== src/Writes/Kept.antt =====
-- An add leaves the user's rows (src/http/memory.rs).
use linggen_memory.Prelude.{
  String, ◌==◌, eq_iff, eq_refl, ◌≡◌, ◌∙◌, refl, sym, ap, subst, ◌⊎◌, inl, inr, Bool, true, false,
  ◌&&◌, Bool-cases, Option, none, some, List, arith, if◌then◌else◌, leb,
}
use linggen_memory.Types.{Memory, user, Instant, Tier, Float, MemoryType, new}
use linggen_memory.Tables.{TableApi}
use linggen_memory.Store.{TableName, Io, Node, table_of, other, get_row, delete, upsert}
use linggen_memory.Store.Edits.{
  InsertOutcome, added, merged, insert, update_full, is_longer, is_exact, find_exact_content,
  merge_fact, insert_with_dedup_except, one,
}
use linggen_memory.Store.Reads.{same_table, row_of, get_row-upsert, get_row-insert, find_from-get}
use linggen_memory.Store.Merging.{insert_with_dedup_except_lem}
use linggen_memory.Store.Forgetting.{get_row-delete}
use linggen_memory.Writes.{
  add, add_row, add_beside, add_in_table, add_embedded, replied, merge_with_existing,
  guard_user_voice, locate_rows,
}
use linggen_memory.Writes.Fields.{
  AddRequest, resolve_tier, tier_rank, table_for, new_fact, is_blank,
}
use linggen_memory.Writes.Voice.{
  IsSame, IsApart, Stands, named, apply_replace_ids-get_row, guard-named, same_place,
}

one_text : (b : Bool) (s t : String) → s ≡ t → (if b then t else s) ≡ s
one_text true s t e = sym e
one_text false s t e = refl

merge_with_existing-IsSame :
    (old row : Memory) → old.content ≡ row.content → IsSame old (merge_with_existing old row)
unfolding merge_with_existing
merge_with_existing-IsSame old row e =
    (one_text (is_longer row old) old.content row.content e, refl, refl)

merge_fact-IsSame : (old row : Memory) → old.content ≡ row.content → IsSame old (merge_fact old row)
unfolding merge_fact
merge_fact-IsSame old row e = (one_text (is_longer row old) old.content row.content e, refl, refl)

exact_content :
    (content : String) (type : MemoryType) (except : List String) (m : Memory)
    → is_exact content type except m ≡ true
    → m.content ≡ content
exact_content content type except m h = (eq_iff m.content content).0 (ground (arith, h))

module _ (db : TableApi) where
  stays :
      (m : Memory) (v : TableName) (k : String) (n n' : Node db)
      → get_row db v k n' ≡ get_row db v k n
      → Stands db m v k n
      → Stands db m v k n'
  stays m v k n n' e (m', here, same) = (m', e ∙ here, same)

  -- A write of one row keeps the others, and that one if it is written as it was.
  put-Stands :
      (r : Memory) (w : TableName) (n n' : Node db)
      → ((v : TableName) (k : String)
          → get_row db v k n'
            ≡ (if same_table w v && (r.id == k) then some r else get_row db v k n))
      → ((x : Memory) → get_row db w r.id n ≡ some x → IsSame x r)
      → (m : Memory) (v : TableName) (k : String) → Stands db m v k n
      → Stands db m v k n'
  put-Stands r w n n' put same m v k (m', here, kept) =
      elim (Bool-cases (same_table w v && (r.id == k))) [
        | inl e ↦
            let (c, o, x) = same m' (same_place db w v r.id k n e ∙ here) in
            (r, put v k ∙ rw e refl, (c ∙ kept.0, o ∙ kept.1, x ∙ kept.2))
        | inr e ↦ (m', put v k ∙ rw e here, kept)
      ]

  -- The row stands, or it has the very text of the write.
  abbrev pub Remains : String → Memory → TableName → String → Node db → Type 0
  Remains text m v k n = Stands db m v k n ⊎ (m.content ≡ text)

  replied-Stands :
      (io : String → Io) (now : Instant) (ids : List String) (o : InsertOutcome) (n : Node db)
      (m : Memory) (v : TableName) (k : String)
      → named db ids k ≡ false
      → Stands db m v k n
      → Stands db m v k (replied db io now ids o n).1
  replied-Stands io now ids o n m v k away =
      stays m v k n (replied db io now ids o n).1
        (apply_replace_ids-get_row db io now (row_of o).id ids v k n away)

  insert-Stands :
      (io : Io) (w : TableName) (row : Memory) (n : Node db)
      → get_row db w row.id n ≡ none
      → (m : Memory) (v : TableName) (k : String) → Stands db m v k n
      → Stands db m v k (insert db io w row n)
  insert-Stands io w row n fresh =
      put-Stands row w n (insert db io w row n) (λ v k. get_row-insert db io w v row k n fresh)
        (λ x here. absurd (cc))

  merged-IsSame :
      (w : TableName) (row : Memory) (n : Node db) (old x : Memory) (o : InsertOutcome)
      → get_row db w old.id n ≡ some old
      → row.content ≡ old.content
      → o ≡ merged (merge_fact old row) one old.id
      → get_row db w (row_of o).id n ≡ some x
      → IsSame x (row_of o)
  unfolding merge_fact
  merged-IsSame w row n old x o there text e =
      subst (λ p. get_row db w (row_of p).id n ≡ some x → IsSame x (row_of p)) (sym e)
        (λ here.
          subst (λ y. IsSame y (merge_fact old row)) {x = old} {y = x} (cc)
            (merge_fact-IsSame old row (sym text)))

  update_full-Stands :
      (io : Io) (w : TableName) (row existing : Memory) (n : Node db)
      → get_row db w existing.id n ≡ some existing
      → existing.content ≡ row.content
      → (m : Memory) (v : TableName) (k : String) → Stands db m v k n
      → Stands db m v k (update_full db io io w existing.id (merge_with_existing existing row) n)
  unfolding update_full merge_with_existing
  update_full-Stands io w row existing n there text m v k = rw (eq_refl existing.id) (
      put-Stands (merge_with_existing existing row) w n
        (upsert db io w (merge_with_existing existing row) n)
        (λ v k. get_row-upsert db io w v (merge_with_existing existing row) k n)
        (λ x here.
          subst (λ y. IsSame y (merge_with_existing existing row)) {x = existing} {y = x} (cc)
            (merge_with_existing-IsSame existing row text))
        m v k)

  -- A copy that a write takes the place of has its text.
  promote-Remains :
      (io : Io) (w : TableName) (existing : Memory) (text : String) (n : Node db)
      → get_row db w existing.id n ≡ some existing
      → existing.content ≡ text
      → (m : Memory) (v : TableName) (k : String) → Stands db m v k n
      → Remains text m v k (delete db io w existing.id n).0
  promote-Remains io w existing text n there same m v k (m', here, kept) =
      elim (Bool-cases (same_table w v && (existing.id == k))) [
        | inl e ↦ inr (
            sym kept.0
            ∙ ap (λ (y : Memory). y.content) {x = m'} {y = existing}
                (unsome m' existing
                  (sym here ∙ (sym (same_place db w v existing.id k n e) ∙ there)))
            ∙ same)
        | inr e ↦ inl (m', get_row-delete db io w v existing.id k n ∙ rw e here, kept)
      ]
    where
      unsome : (a b : Memory) → some a ≡ some b → a ≡ b
      unsome a b e = cc

  dedup-Stands :
      (io : Io) (w : TableName) (row : Memory) (ids : List String) (n : Node db)
      → get_row db w row.id n ≡ none
      → (m : Memory) (v : TableName) (k : String) → Stands db m v k n
      → Stands db m v k (insert_with_dedup_except db io w row ids n).1
  dedup-Stands io w row ids n fresh =
      let (o, after) = insert_with_dedup_except db io w row ids n in
      let (reads, which) = insert_with_dedup_except_lem db io w row ids n fresh in
      put-Stands (row_of o) w n after reads (λ x here. elim which [
        | inl (e, absent) ↦ absurd (cc)
        | inr (old, there, exact, e, _, _, _) ↦
            merged-IsSame w row n old x o there
              (sym (exact_content row.content row.type ids old exact)) e here
      ])

  add_in_table-Stands :
      (io : String → Io) (now : Instant) (w : TableName) (ids : List String) (row : Memory)
      (n : Node db)
      → get_row db w row.id n ≡ none
      → (m : Memory) (v : TableName) (k : String) → named db ids k ≡ false
      → Stands db m v k n
      → Stands db m v k (add_in_table db io now w ids row n).1
  add_in_table-Stands io now w ids row n fresh m v k away h =
      let (o, after) = insert_with_dedup_except db (io row.id) w row ids n in
      replied-Stands io now ids o after m v k away
        (dedup-Stands (io row.id) w row ids n fresh m v k h)

  found_copy :
      (w : TableName) (row : Memory) (ids : List String) (n : Node db) (existing : Memory)
      → find_exact_content db w row.content row.type ids n ≡ some existing
      → (get_row db w existing.id n ≡ some existing) × (existing.content ≡ row.content)
  unfolding find_exact_content get_row
  found_copy w row ids n existing e =
      let (here, exact) =
        find_from-get db (db.ids (table_of db w n)) (is_exact row.content row.type ids)
          (table_of db w n) existing e in
      (here, exact_content row.content row.type ids existing exact)

  add_beside-Remains :
      (io : String → Io) (now : Instant) (w : TableName) (ids : List String) (row : Memory)
      (n : Node db)
      → ((u : TableName) → get_row db u row.id n ≡ none)
      → (o : Option Memory) → find_exact_content db (other w) row.content row.type ids n ≡ o
      → (m : Memory) (v : TableName) (k : String) → named db ids k ≡ false
      → Stands db m v k n
      → Remains row.content m v k (add_beside db o io now w ids row n).1
  add_beside-Remains io now w ids row n fresh none e m v k away h =
      inl (add_in_table-Stands io now w ids row n (fresh w) m v k away h)
  add_beside-Remains io now w ids row n fresh (some existing) e m v k away h =
      let (there, text) = found_copy (other w) row ids n existing e in
      elim (Bool-cases (leb (tier_rank row.tier) (tier_rank existing.tier))) [
        | inl kept ↦ rw kept (
            inl (
              replied-Stands io now ids (merged (merge_with_existing existing row) one existing.id)
                (update_full db (io existing.id) (io existing.id) (other w) existing.id
                  (merge_with_existing existing row) n)
                m v k away
                (update_full-Stands (io existing.id) (other w) row existing n there text m v k h)))
        | inr higher ↦
            rw higher
              (elim (promote-Remains (io existing.id) (other w) existing row.content n there text m
                v k h) [
                  | inl stands ↦ inl (
                      add_in_table-Stands io now w ids row
                        (delete db (io existing.id) (other w) existing.id n).0
                        (ground (
                          arith,
                          get_row-delete db (io existing.id) (other w) w existing.id row.id n,
                          fresh w,
                        ))
                        m v k away stands)
                  | inr copy ↦ inr copy
                ])
      ]

  add_row-Remains :
      (io : String → Io) (now : Instant) (skip_dedup : Bool) (ids : List String) (row : Memory)
      (n : Node db)
      → ((u : TableName) → get_row db u row.id n ≡ none)
      → (m : Memory) (v : TableName) (k : String) → named db ids k ≡ false
      → Stands db m v k n
      → Remains row.content m v k (add_row db io now skip_dedup ids row n).1
  add_row-Remains io now true ids row n fresh m v k away h =
      let w = table_for row.tier in
      inl (
        replied-Stands io now ids (added row) (insert db (io row.id) w row n) m v k away
          (insert-Stands (io row.id) w row n (fresh w) m v k h))
  add_row-Remains io now false ids row n fresh m v k away h =
      let w = table_for row.tier in
      add_beside-Remains io now w ids row n fresh
        (find_exact_content db (other w) row.content row.type ids n) refl m v k away h

  add_embedded-Remains :
      (o : Option (List Float)) (io : String → Io) (now : Instant) (req : AddRequest) (row : Memory)
      (n : Node db)
      → ((u : TableName) → get_row db u row.id n ≡ none)
      → (m : Memory) (v : TableName) (k : String) → named db req.replace_ids k ≡ false
      → Stands db m v k n
      → Remains row.content m v k (add_embedded db o io now req row n).1
  add_embedded-Remains none io now req row n fresh m v k away h = inl h
  add_embedded-Remains (some vec) io now req row n fresh m v k away h =
      add_row-Remains io now req.skip_dedup req.replace_ids (record row { vector = some vec }) n
        fresh m v k away h

  -- An add that does not say that the user directed it, under a fresh id, and where no id is in both
  -- tables: every row in the user's voice, of either table, stands afterwards under its id with its
  -- text, its voice and its expiry, whatever the add merges with or replaces; or it has the very text
  -- of the add.
  pub add-Remains :
      (io : String → Io) (embed : String → Option (List Float))
      (scope_of : List Memory → Tier → Option String) (id : String) (now : Instant)
      (req : AddRequest) (n : Node db)
      → req.user_directed ≡ false
      → IsApart db n
      → ((u : TableName) → get_row db u id n ≡ none)
      → (m : Memory) (v : TableName) (k : String) → get_row db v k n ≡ some m
      → m.origin ≡ user
      → Remains req.content m v k (add db io embed scope_of id now req n).1
  unfolding add new
  add-Remains io embed scope_of id now req n undirected apart fresh m v k here voice =
      let losers = locate_rows db req.replace_ids n in
      let tier = resolve_tier req.tier req.episodic losers req.indexed in
      let row = new_fact id now req tier (scope_of losers tier) in
      let stands : Stands db m v k n = (m, here, (refl, refl, refl)) in
      elim (Bool-cases (is_blank req.content)) [
        | inl blank ↦ rw blank (inl stands)
        | inr text ↦ elim (Bool-cases (guard_user_voice db req.replace_ids req.user_directed n)) [
          | inl passed ↦
              rw (text, passed)
                (add_embedded-Remains (embed req.content) io now req row n fresh m v k
                  (guard-named db req.replace_ids n v k m apart
                    (ap (λ b. guard_user_voice db req.replace_ids b n) (sym undirected) ∙ passed)
                    here voice)
                  stands)
          | inr refused ↦ rw (text, refused) (inl stands)
        ]
      ]
