-- ===== src/Writes/Voice.antt =====
-- The rows of the user's voice under the parts of an add (src/http/memory.rs).
use linggen_memory.Prelude.{
  String, ◌==◌, eq_iff, ◌≡◌, ◌∙◌, refl, sym, ap, subst, ◌⊎◌, inl, inr, Bool, true, false, ◌&&◌,
  Bool-cases, none, some, List, [], ◌∷◌, arith, any,
}
use linggen_memory.Types.{Memory, user, Instant}
use linggen_memory.Tables.{TableApi}
use linggen_memory.Store.{TableName, semantic, episodic, Io, Node, get_row}
use linggen_memory.Store.Edits.{expire}
use linggen_memory.Store.Reads.{same_table, expire-get_row}
use linggen_memory.Store.Forgetting.{get_row-delete}
use linggen_memory.Writes.{is_offending, guard_user_voice, retire, apply_replace_ids}

-- A row as the user left it: its text, its voice, and whether it is archived.
abbrev pub IsSame : Memory → Memory → Type 0
IsSame m m' = (m'.content ≡ m.content) × (m'.origin ≡ m.origin) × (m'.expired_at ≡ m.expired_at)

module _ (db : TableApi) where
  -- No id is in both tables.
  abbrev pub IsApart : Node db → Type 0
  IsApart n = (k : String) → (get_row db semantic k n ≡ none) ⊎ (get_row db episodic k n ≡ none)

  -- The row under an id still stands, as it was left.
  abbrev pub Stands : Memory → TableName → String → Node db → Type 0
  Stands m v k n = (m' : Memory) × (get_row db v k n ≡ some m') × IsSame m m'

  abbrev pub named : List String → String → Bool
  named ids k = any (λ id. id == k) ids

  retire-get_row :
      (io : String → Io) (now : Instant) (successor id : String) (v : TableName) (k : String)
      (n : Node db)
      → (id == k) ≡ false
      → get_row db v k (retire db io now successor id n).0 ≡ get_row db v k n
  retire-get_row io now successor id v k n apart =
      let kept = (expire-get_row db (io id) semantic v id k successor now n).0 in
      let archived = (expire db (io id) semantic id successor now n).1 in
      elim (Bool-cases (expire db (io id) semantic id successor now n).0) [
        | inl found ↦ rw found (ground (arith, kept, apart))
        | inr gone ↦
            rw gone
              (ground (arith, kept, get_row-delete db (io id) episodic v id k archived, apart))
      ]

  -- The sweep of the losers leaves every row that it does not name.
  pub apply_replace_ids-get_row :
      (io : String → Io) (now : Instant) (successor : String) (ids : List String) (v : TableName)
      (k : String) (n : Node db)
      → named ids k ≡ false
      → get_row db v k (apply_replace_ids db io now successor ids n).1 ≡ get_row db v k n
  unfolding apply_replace_ids
  apply_replace_ids-get_row io now successor [] v k n away = refl
  apply_replace_ids-get_row io now successor (id ∷ ids) v k n away =
      let rest = λ (n' : Node db).
        apply_replace_ids-get_row io now successor ids v k n' (ground (arith, away)) in
      elim (Bool-cases (id == successor)) [
        | inl own ↦ rw own (rest n)
        | inr loser ↦ rw loser (
            rest (retire db io now successor id n).0
            ∙ retire-get_row io now successor id v k n (ground (arith, away)))
      ]

  offending :
      (n : Node db) (v : TableName) (k : String) (m : Memory)
      → IsApart n
      → get_row db v k n ≡ some m
      → m.origin ≡ user
      → is_offending db n k ≡ true
  offending n semantic k m apart here voice = rw (here, is_offending) (rw voice refl)
  offending n episodic k m apart here voice = elim (apart k) [
    | inl absent ↦ rw (absent, is_offending) (rw here (rw voice refl))
    | inr none_here ↦ absurd (cc)
  ]

  -- A user's row is named by no write that the guard lets through.
  pub guard-named :
      (ids : List String) (n : Node db) (v : TableName) (k : String) (m : Memory)
      → IsApart n
      → guard_user_voice db ids false n ≡ true
      → get_row db v k n ≡ some m
      → m.origin ≡ user
      → named ids k ≡ false
  unfolding guard_user_voice
  guard-named [] n v k m apart passed here voice = refl
  guard-named (id ∷ ids) n v k m apart passed here voice = elim (Bool-cases (id == k)) [
    | inl same ↦
        let e =
          subst (λ j. is_offending db n j ≡ true) (sym ((eq_iff id k).0 same))
            (offending n v k m apart here voice) in
        ground (arith, e, passed)
    | inr away ↦
        ground (arith, away, guard-named ids n v k m apart (ground (arith, passed)) here voice)
  ]

  pub same_place :
      (w v : TableName) (i k : String) (n : Node db)
      → (same_table w v && (i == k)) ≡ true
      → get_row db w i n ≡ get_row db v k n
  same_place semantic semantic i k n e = ap (λ j. get_row db semantic j n) ((eq_iff i k).0 e)
  same_place episodic episodic i k n e = ap (λ j. get_row db episodic j n) ((eq_iff i k).0 e)
  same_place semantic episodic i k n e = absurd (cc)
  same_place episodic semantic i k n e = absurd (cc)
