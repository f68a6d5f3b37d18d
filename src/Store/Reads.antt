-- ===== src/Store/Reads.antt =====
-- What a read of a row finds after an edit.
use linggen_memory.Prelude.{
  String, ◌==◌, eq_iff, ◌≡◌, ◌∙◌, refl, sym, ap, subst, Bool, Bool-cases, Option-cases, inl, inr,
  true, false, ◌&&◌, Option, none, some, List, [], ◌∷◌, if◌then◌else◌, is_some, any, arith,
}
use linggen_memory.Types.{Memory, Instant}
use linggen_memory.Tables.{TableApi}
use linggen_memory.Store.{TableName, semantic, episodic, Io, Node, upsert, get_row}
use linggen_memory.Store.Edits.{
  MemoryPatch, apply, InsertOutcome, added, merged, find_on, find_from, insert, rewrite_on, update,
  expire,
}

abbrev pub same_table : TableName → TableName → Bool
same_table semantic semantic = true
same_table episodic episodic = true
same_table _ _ = false

-- The row that an insert leaves.
abbrev pub row_of : InsertOutcome → Memory
row_of (added m) = m
row_of (merged m s id) = m

abbrev pub passes : (Memory → Bool) → Option Memory → Bool
passes p none = false
passes p (some m) = p m

-- The row as its expiry leaves it.
abbrev pub archived : String → Instant → Option Memory → Option Memory
archived successor now none = none
archived successor now (some m) =
    some (record m { expired_at = some now; superseded_by = some successor })

module _ (db : TableApi) where
  pub get_row-upsert :
      (io : Io) (w v : TableName) (m : Memory) (k : String) (n : Node db)
      → get_row db v k (upsert db io w m n)
        ≡ (if same_table w v && (m.id == k) then some m else get_row db v k n)
  unfolding get_row upsert
  get_row-upsert io semantic semantic m k n = db.get-upsert n.semantic m k
  get_row-upsert io semantic episodic m k n = refl
  get_row-upsert io episodic semantic m k n = refl
  get_row-upsert io episodic episodic m k n = db.get-upsert n.episodic m k

  pub get_row-insert :
      (io : Io) (w v : TableName) (m : Memory) (k : String) (n : Node db)
      → get_row db w m.id n ≡ none
      → get_row db v k (insert db io w m n)
        ≡ (if same_table w v && (m.id == k) then some m else get_row db v k n)
  unfolding get_row insert
  get_row-insert io semantic semantic m k n h = db.get-add n.semantic m k h
  get_row-insert io semantic episodic m k n h = refl
  get_row-insert io episodic semantic m k n h = refl
  get_row-insert io episodic episodic m k n h = db.get-add n.episodic m k h

  unsome : (x y : Memory) → ◌≡◌ {A = Option Memory} (some x) (some y) → x ≡ y
  unsome x y e = cc

  pub find_from-get :
      (ids : List String) (p : Memory → Bool) (t : db.Table) (m : Memory)
      → find_from db ids p t ≡ some m
      → (db.get t m.id ≡ some m) × (p m ≡ true)
  unfolding find_from
  find_from-get [] p t m h = absurd (cc)
  find_from-get (id ∷ rest) p t m h = elim (Option-cases (db.get t id)) [
    | inl gone ↦
        find_from-get rest p t m (sym (ap (λ o. find_on db o p (find_from db rest p t)) gone) ∙ h)
    | inr (x, found) ↦
        let here : (if p x then some x else find_from db rest p t) ≡ some m =
          sym (ap (λ o. find_on db o p (find_from db rest p t)) found) ∙ h in
        elim (Bool-cases (p x)) [
          | inl passed ↦
              let same : x ≡ m =
                unsome x m
                  (ap (λ b. if b then some x else find_from db rest p t) (sym passed) ∙ here) in
              (
                subst (λ y. db.get t y.id ≡ some y) same
                    (ap (db.get t) ((eq_iff x.id id).0 (db.get-id t id x found)) ∙ found),
                subst (λ y. p y ≡ true) same passed,
              )
          | inr failed ↦
              find_from-get rest p t m
                (ap (λ b. if b then some x else find_from db rest p t) (sym failed) ∙ here)
        ]
  ]

  pub find_from-none :
      (ids : List String) (p : Memory → Bool) (t : db.Table) (k : String)
      → find_from db ids p t ≡ none
      → any (λ j. j == k) ids ≡ true
      → passes p (db.get t k) ≡ false
  unfolding find_from
  find_from-none [] p t k h listed = absurd (cc)
  find_from-none (id ∷ rest) p t k h listed = elim (Option-cases (db.get t id)) [
    | inl gone ↦
        let later : find_from db rest p t ≡ none =
          sym (ap (λ o. find_on db o p (find_from db rest p t)) gone) ∙ h in
        elim (Bool-cases (id == k)) [
          | inl same ↦ ap (passes p) (ap (db.get t) (sym ((eq_iff id k).0 same)) ∙ gone)
          | inr away ↦ find_from-none rest p t k later (ground (arith, listed, away))
        ]
    | inr (x, found) ↦
        let here : (if p x then some x else find_from db rest p t) ≡ none =
          sym (ap (λ o. find_on db o p (find_from db rest p t)) found) ∙ h in
        elim (Bool-cases (p x)) [
          | inl passed ↦ absurd (ground (arith, here, passed))
          | inr failed ↦ elim (Bool-cases (id == k)) [
            | inl same ↦ ap (passes p) (ap (db.get t) (sym ((eq_iff id k).0 same)) ∙ found) ∙ failed
            | inr away ↦
                find_from-none rest p t k
                  (ap (λ b. if b then some x else find_from db rest p t) (sym failed) ∙ here)
                  (ground (arith, listed, away))
          ]
        ]
  ]

  of_same :
      (id k : String) (g : String → Option Memory)
      → g id ≡ none
      → g k ≡ (if id == k then none else g k)
  of_same id k g h = elim (Bool-cases (id == k)) [
    | inl same ↦ rw same (ap g (sym ((eq_iff id k).0 same)) ∙ h)
    | inr away ↦ rw away refl
  ]

  pub get_row-id :
      (w : TableName) (id : String) (m : Memory) (n : Node db)
      → get_row db w id n ≡ some m
      → m.id ≡ id
  unfolding get_row
  get_row-id semantic id m n h = (eq_iff m.id id).0 (db.get-id n.semantic id m h)
  get_row-id episodic id m n h = (eq_iff m.id id).0 (db.get-id n.episodic id m h)

  of_absent :
      (w v : TableName) (id k : String) (n : Node db)
      → get_row db w id n ≡ none
      → get_row db v k n ≡ (if same_table w v && (id == k) then none else get_row db v k n)
  of_absent semantic episodic id k n h = refl
  of_absent episodic semantic id k n h = refl
  of_absent semantic semantic id k n h = of_same id k (λ j. get_row db semantic j n) h
  of_absent episodic episodic id k n h = of_same id k (λ j. get_row db episodic j n) h

  -- A read-change-write whose change keeps the id.
  rewrite_on-get_row :
      (f : Memory → Memory) (io : Io) (w v : TableName) (id k : String) (n : Node db)
      → ((m : Memory) → (f m).id ≡ m.id)
      → get_row db v k (rewrite_on db f (get_row db w id n) io w n).1 ≡ (
          if same_table w v && (id == k)
          then (rewrite_on db f (get_row db w id n) io w n).0
          else get_row db v k n)
  rewrite_on-get_row f io w v id k n keeps = elim (Option-cases (get_row db w id n)) [
    | inl gone ↦
        subst
          (λ o. get_row db v k (rewrite_on db f o io w n).1 ≡ (
            if same_table w v && (id == k) then (rewrite_on db f o io w n).0 else get_row db v k n))
          (sym gone) (of_absent w v id k n gone)
    | inr (m, found) ↦
        subst
          (λ o. get_row db v k (rewrite_on db f o io w n).1 ≡ (
            if same_table w v && (id == k) then (rewrite_on db f o io w n).0 else get_row db v k n))
          (sym found)
          (get_row-upsert io w v (f m) k n
            ∙ ap (λ i. if same_table w v && (i == k) then some (f m) else get_row db v k n)
                (keeps m ∙ get_row-id w id m n found))
  ]

  -- An update changes one row of one table: under the id that it was given, the row that it returns
  -- (none, if there is none) is what is read afterwards, and every other row of both tables is read
  -- as before.
  pub update-get_row :
      (io : Io) (w v : TableName) (id k : String) (patch : MemoryPatch) (now : Instant)
      (n : Node db)
      → get_row db v k (update db io w id patch now n).1 ≡ (
          if same_table w v && (id == k)
          then (update db io w id patch now n).0
          else get_row db v k n)
  unfolding update apply
  update-get_row io w v id k patch now n =
      rewrite_on-get_row (λ m. record (apply patch m) { updated_at = some now }) io w v id k n
        (λ m. refl)

  -- Expiring a row keeps it in its table with every field as it was, but for the time of its expiry
  -- and its successor; every other row is as before, and the answer says whether the row was there.
  pub expire-get_row :
      (io : Io) (w v : TableName) (id k successor : String) (now : Instant) (n : Node db)
      → (get_row db v k (expire db io w id successor now n).1 ≡ (
          if same_table w v && (id == k)
          then archived successor now (get_row db w id n)
          else get_row db v k n))
        × ((expire db io w id successor now n).0 ≡ is_some (get_row db w id n))
  unfolding expire
  expire-get_row io w v id k successor now n =
      let f : Memory → Memory =
        λ m. record m { expired_at = some now; superseded_by = some successor } in
      (
        rewrite_on-get_row f io w v id k n (λ m. refl)
            ∙ ap (λ o. if same_table w v && (id == k) then o else get_row db v k n)
                (answer f (get_row db w id n) (λ m. refl)),
        found f (get_row db w id n),
      )
    where
      answer :
          (f : Memory → Memory) (o : Option Memory)
          → ((m : Memory)
              → f m ≡ record m { expired_at = some now; superseded_by = some successor })
          → (rewrite_on db f o io w n).0 ≡ archived successor now o
      answer f none e = refl
      answer f (some m) e = ap some (e m)

      found :
          (f : Memory → Memory) (o : Option Memory)
          → is_some (rewrite_on db f o io w n).0 ≡ is_some o
      found f none = refl
      found f (some m) = refl
