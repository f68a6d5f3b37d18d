-- ===== src/Writes/Rewrites.antt =====
-- An update leaves the texts of the user's rows (src/http/memory.rs).
use linggen_memory.Prelude.{
  String, ◌==◌, eq_iff, ◌≡◌, ◌∙◌, refl, sym, ap, subst, ◌⊎◌, inl, inr, true, false, not, ◌&&◌,
  Bool-cases, Option, Option-cases, none, some, List, [], ◌∷◌, arith, is_some, or_else,
  if◌then◌else◌,
}
use linggen_memory.Types.{Memory, user, Instant, Tier}
use linggen_memory.Tables.{TableApi}
use linggen_memory.Store.{TableName, semantic, episodic, Io, Node, get_row, delete}
use linggen_memory.Store.Edits
use linggen_memory.Store.Edits.{MemoryPatch, apply, insert}
use linggen_memory.Store.Reads.{same_table, get_row-id, get_row-insert, update-get_row}
use linggen_memory.Store.Forgetting.{get_row-delete}
use linggen_memory.Store.Filters.{AccountScope, admits}
use linggen_memory.Writes.{
  first_found, update, update_with, update_found, move, guard_user_voice, locate_in,
  stores_for_read,
}
use linggen_memory.Writes.Fields.{
  UpdateRequest, patch_of, patch_dir, patch_from, non_blank, pinned, table_for, is_table, is_core,
}
use linggen_memory.Writes.Voice.{IsApart, guard-named, same_place}

module _ (db : TableApi) where
  -- A row under the id says the text, in one table or the other.
  abbrev pub Says : String → String → Node db → Type 0
  Says text k n = (u : TableName) × (m : Memory) × (get_row db u k n ≡ some m) × (m.content ≡ text)

  -- The one change is under another id, or leaves the text.
  abbrev IsMild : String → String → MemoryPatch → Type 0
  IsMild id k p = ((id == k) ≡ false) ⊎ (p.content ≡ none)

  pinned-content : (tier : Tier) (p : MemoryPatch) → (pinned tier p).content ≡ p.content
  pinned-content tier p = elim (Bool-cases (is_core tier)) [ inl e ↦ rw e refl | inr e ↦ rw e refl ]

  move-get_row :
      (io : String → Io) (from to : TableName) (id : String) (moved : Memory) (n : Node db)
      (u : TableName) (k : String)
      → moved.id ≡ id
      → get_row db to id n ≡ none
      → get_row db u k (move db io from to id moved n).1 ≡ (
          if same_table to u && (id == k)
          then some moved
          else if same_table from u && (id == k)
          then none
          else get_row db u k n)
  move-get_row io from to id moved n u k same free =
      let gone = (delete db (io id) from id n).0 in
      get_row-insert db (io id) to u moved k gone (
        ground (
          arith,
          get_row-delete db (io id) from to id moved.id n,
          ap (λ j. get_row db to j n) same,
          free,
        ))
      ∙ ground (arith, ap (λ j. j == k) same, get_row-delete db (io id) from u id k n)

  self_table : (w : TableName) → same_table w w ≡ true
  self_table semantic = refl
  self_table episodic = refl

  move-Says :
      (io : String → Io) (from to : TableName) (id : String) (moved : Memory) (n : Node db)
      (v : TableName) (k : String) (m : Memory)
      → moved.id ≡ id
      → get_row db to id n ≡ none
      → get_row db v k n ≡ some m
      → ((id == k) ≡ false) ⊎ (moved.content ≡ m.content)
      → Says m.content k (move db io from to id moved n).1
  move-Says io from to id moved n v k m same free here (inl other) =
      (v, m, ground (arith, move-get_row io from to id moved n v k same free, other, here), refl)
  move-Says io from to id moved n v k m same free here (inr text) = elim (Bool-cases (id == k)) [
    | inl e ↦ (
      to,
      moved,
      ground (arith, move-get_row io from to id moved n to k same free, e, self_table to),
      text,
    )
    | inr other ↦
        (v, m, ground (arith, move-get_row io from to id moved n v k same free, other, here), refl)
  ]

  -- The update within a table.
  rewrite-Says :
      (io : Io) (w v : TableName) (id k : String) (p : MemoryPatch) (now : Instant) (n : Node db)
      (m : Memory)
      → get_row db v k n ≡ some m
      → IsMild id k p
      → Says m.content k (Edits.update db io w id p now n).1
  unfolding linggen_memory.Store.Edits.update apply
  rewrite-Says io w v id k p now n m here mild = elim (Bool-cases (same_table w v && (id == k))) [
    | inl e ↦ (
      v,
      record (apply p m) { updated_at = some now },
      update-get_row db io w v id k p now n ∙ rw (e, same_place db w v id k n e ∙ here) refl,
      elim mild [
        | inl other ↦ absurd (ground (arith, e, other))
        | inr untouched ↦ rw untouched refl
      ],
    )
    | inr away ↦ (v, m, update-get_row db io w v id k p now n ∙ rw away here, refl)
  ]

  found_there :
      (id : String) (n : Node db) (u w : TableName) (x m : Memory)
      → get_row db u id n ≡ some x
      → ◌≡◌ {A = Option (TableName × Memory)} (some (u, x)) (some (w, m))
      → get_row db w id n ≡ some m
  found_there id n u w x m here e = cc

  -- What `locate_in` finds is read in its table.
  locate_in-get_row :
      (ws : List TableName) (id : String) (n : Node db) (w : TableName) (m : Memory)
      → locate_in db ws id n ≡ some (w, m)
      → get_row db w id n ≡ some m
  locate_in-get_row [] id n w m h = absurd (cc)
  locate_in-get_row (u ∷ ws) id n w m h =
      let step = λ (o : Option Memory). first_found o u (locate_in db ws id n) in
      elim (Option-cases (get_row db u id n)) [
        | inl e ↦ locate_in-get_row ws id n w m (sym (ap step e) ∙ h)
        | inr (x, e) ↦ found_there id n u w x m e (sym (ap step e) ∙ h)
      ]

  other_free :
      (w t : TableName) (id : String) (n : Node db) (x : Memory)
      → is_table w t ≡ false
      → IsApart db n
      → get_row db w id n ≡ some x
      → get_row db t id n ≡ none
  other_free semantic semantic id n x h apart here = absurd (cc)
  other_free episodic episodic id n x h apart here = absurd (cc)
  other_free semantic episodic id n x h apart here = elim (apart id) [
    | inl e ↦ absurd (cc)
    | inr e ↦ e
  ]
  other_free episodic semantic id n x h apart here = elim (apart id) [
    | inl e ↦ e
    | inr e ↦ absurd (cc)
  ]

  only_row :
      (w v : TableName) (id : String) (n : Node db) (x m : Memory)
      → IsApart db n
      → get_row db w id n ≡ some x
      → get_row db v id n ≡ some m
      → x ≡ m
  only_row semantic semantic id n x m apart here there = cc
  only_row episodic episodic id n x m apart here there = cc
  only_row semantic episodic id n x m apart here there = elim (apart id) [
    | inl e ↦ absurd (cc)
    | inr e ↦ absurd (cc)
  ]
  only_row episodic semantic id n x m apart here there = elim (apart id) [
    | inl e ↦ absurd (cc)
    | inr e ↦ absurd (cc)
  ]

  update_found-Says :
      (io : String → Io) (now : Instant) (id : String) (p : MemoryPatch) (scope : AccountScope)
      (o : Option (TableName × Memory)) (n : Node db)
      → ((w : TableName) (x : Memory) → o ≡ some (w, x) → get_row db w id n ≡ some x)
      → IsApart db n
      → (v : TableName) (k : String) (m : Memory) → get_row db v k n ≡ some m
      → IsMild id k p
      → Says m.content k (update_found db io now id p scope o n).1
  unfolding apply
  update_found-Says io now id p scope none n located apart v k m here mild = (v, m, here, refl)
  update_found-Says io now id p scope (some (w, existing)) n located apart v k m here mild =
      let tier = or_else p.tier existing.tier in
      let q = pinned tier p in
      let mild' : IsMild id k q = elim mild [
        | inl other ↦ inl other
        | inr untouched ↦ inr (pinned-content tier p ∙ untouched)
      ] in
      elim (Bool-cases (admits scope existing)) [
        | inr theirs ↦ rw theirs (v, m, here, refl)
        | inl ours ↦ elim (Bool-cases (is_table w (table_for tier))) [
          | inl inside ↦ rw (ours, inside) (rewrite-Says (io id) w v id k q now n m here mild')
          | inr across ↦
              rw (ours, across)
                (let there = located w existing refl in
                  move-Says io w (table_for tier) id
                    (record (apply q existing) { tier = tier; updated_at = some now }) n v k m
                    (get_row-id db w id existing n there)
                    (other_free w (table_for tier) id n existing across apart there) here
                    (elim (Bool-cases (id == k)) [
                      | inr other ↦ inl other
                      | inl e ↦ elim mild' [
                        | inl other ↦ inl other
                        | inr untouched ↦ inr (
                            rw untouched (
                              ap (λ (y : Memory). y.content)
                                (only_row w v id n existing m apart there (
                                  subst (λ j. get_row db v j n ≡ some m) (sym ((eq_iff id k).0 e))
                                    here))))
                      ]
                    ]))
        ]
      ]

  patch_dir-content :
      (o : Option String) (req : UpdateRequest) (p : MemoryPatch)
      → patch_dir o req ≡ some p
      → p.content ≡ req.content
  patch_dir-content none req p h = absurd (cc)
  patch_dir-content (some d) req p h = cc

  patch_from-content :
      (expand : String → Option String) (o : Option String) (req : UpdateRequest) (p : MemoryPatch)
      → patch_from expand o req ≡ some p
      → p.content ≡ req.content
  patch_from-content expand none req p h = cc
  patch_from-content expand (some d) req p h = patch_dir-content (expand d) req p h

  update_with-Says :
      (o : Option MemoryPatch) (io : String → Io) (now : Instant) (req : UpdateRequest)
      (n : Node db)
      → IsApart db n
      → (v : TableName) (k : String) (m : Memory) → get_row db v k n ≡ some m
      → ((p : MemoryPatch) → o ≡ some p → IsMild req.id k p)
      → Says m.content k (update_with db o io now req n).1
  update_with-Says none io now req n apart v k m here mild = (v, m, here, refl)
  update_with-Says (some p) io now req n apart v k m here mild =
      let ws = stores_for_read req.episodic in
      update_found-Says io now req.id p req.scope (locate_in db ws req.id n) n
        (λ w x h. locate_in-get_row ws req.id n w x h) apart v k m here (mild p refl)

  -- An update that does not say that the user directed it, where no id is in both tables: every row
  -- in the user's voice is afterwards still read under its id, in one table or the other, with the
  -- text that it had.
  pub update-Says :
      (io : String → Io) (expand : String → Option String) (now : Instant) (req : UpdateRequest)
      (n : Node db)
      → req.user_directed ≡ false
      → IsApart db n
      → (v : TableName) (k : String) (m : Memory) → get_row db v k n ≡ some m
      → m.origin ≡ user
      → Says m.content k (update db io expand now req n).1
  unfolding update
  update-Says io expand now req n undirected apart v k m here voice =
      let guard = guard_user_voice db (req.id ∷ []) req.user_directed n in
      elim (Bool-cases (is_some req.content && not guard)) [
        | inl refused ↦ rw refused (v, m, here, refl)
        | inr passed ↦ rw passed (
            update_with-Says (patch_of expand req) io now req n apart v k m here (λ p e.
              elim (Option-cases req.content) [
                | inl bare ↦
                    inr (patch_from-content expand (non_blank req.scope_dir) req p e ∙ bare)
                | inr (text, given) ↦
                    let free =
                      guard-named db (req.id ∷ []) n v k m apart
                        (ap (λ b. guard_user_voice db (req.id ∷ []) b n) (sym undirected)
                          ∙ ground (arith, passed, ap is_some given))
                        here voice in
                    inl (ground (arith, free))
              ]))
      ]
