-- ===== src/Store/Merging.antt =====
-- The merging insert, and what a merge of two rows keeps.
use linggen_memory.Prelude.{
  String, ◌==◌, ◌≡◌, refl, ap, Bool, Bool-cases, inl, inr, ◌⊎◌, true, false, ◌&&◌, ◌||◌, Option,
  none, some, List, if◌then◌else◌, ltb, is_some, any, not, arith,
}
use linggen_memory.Types.{Memory, type_str}
use linggen_memory.Tables.{TableApi}
use linggen_memory.Text.{byte_length}
use linggen_memory.Store.{TableName, Io, Node, table_of, get_row}
use linggen_memory.Store.Edits.{
  merge_fact, preferred, is_longer, added, merged, one, is_exact, find_exact_content, insert_on,
  insert_with_dedup_except,
}
use linggen_memory.Store.Reads.{
  same_table, row_of, passes, get_row-upsert, get_row-insert, find_from-get, find_from-none,
}

-- Of a row: it is not expired, has the content and the type of the other, and is not excepted.
abbrev pub is_live_copy : Memory → List String → Memory → Bool
is_live_copy fact except m =
    (m.content == fact.content)
    && (type_str m.type == type_str fact.type)
    && not (is_some m.expired_at)
    && not (any (λ j. j == m.id) except)

module _ (db : TableApi) where
  -- After a merging insert of a row with a fresh id, the row that the outcome names is read under
  -- its id, and every other row of both tables is as before. It is the row given, when no live row
  -- outside the excepted has its content and type; else the merge with such a row, which keeps that
  -- row's id, origin and creation.
  pub insert_with_dedup_except_lem :
      (io : Io) (w : TableName) (fact : Memory) (except : List String) (n : Node db)
      → get_row db w fact.id n ≡ none
      → let (o, after) = insert_with_dedup_except db io w fact except n in
        ((v : TableName) (k : String)
          → get_row db v k after ≡ (
              if same_table w v && ((row_of o).id == k) then some (row_of o) else get_row db v k n))
        × (((o ≡ added fact)
              × ((k : String) → passes (is_live_copy fact except) (get_row db w k n) ≡ false))
            ⊎ ((old : Memory) × (get_row db w old.id n ≡ some old)
                × (is_live_copy fact except old ≡ true)
                × (o ≡ merged (merge_fact old fact) one old.id)
                × ((row_of o).id ≡ old.id)
                × ((row_of o).origin ≡ old.origin)
                × ((row_of o).created_at ≡ old.created_at)))
  unfolding insert_with_dedup_except find_exact_content get_row merge_fact
  insert_with_dedup_except_lem io w fact except n fresh =
      by_match (find_exact_content db w fact.content fact.type except n) refl
    where
      test : Memory → Bool
      test = is_exact fact.content fact.type except

      absent :
          (k : String)
          → find_exact_content db w fact.content fact.type except n ≡ none
          → passes (is_exact fact.content fact.type except) (get_row db w k n) ≡ false
      absent k e = elim (Bool-cases (any (λ j. j == k) (db.ids (table_of db w n)))) [
        | inl listed ↦
            find_from-none db (db.ids (table_of db w n)) (is_exact fact.content fact.type except)
              (table_of db w n) k e listed
        | inr away ↦
            ap (passes (is_exact fact.content fact.type except))
              (db.get_of_ids (table_of db w n) k away)
      ]

      by_match :
          (o : Option Memory)
          → find_exact_content db w fact.content fact.type except n ≡ o
          → let (out, after) = insert_on db o io w fact n in
            ((v : TableName) (k : String)
              → get_row db v k after ≡ (
                  if same_table w v && ((row_of out).id == k)
                  then some (row_of out)
                  else get_row db v k n))
            × (((out ≡ added fact)
                  × ((k : String)
                      → passes (is_exact fact.content fact.type except) (get_row db w k n) ≡ false))
                ⊎ ((old : Memory) × (get_row db w old.id n ≡ some old)
                    × (is_exact fact.content fact.type except old ≡ true)
                    × (out ≡ merged (merge_fact old fact) one old.id)
                    × ((row_of out).id ≡ old.id)
                    × ((row_of out).origin ≡ old.origin)
                    × ((row_of out).created_at ≡ old.created_at)))
      by_match none e =
          (λ v k. get_row-insert db io w v fact k n fresh, inl (refl, λ k. absent k e))
      by_match (some old) e =
          let (there, fits) =
            find_from-get db (db.ids (table_of db w n)) (is_exact fact.content fact.type except)
              (table_of db w n) old e in
          (
            λ v k. get_row-upsert db io w v (merge_fact old fact) k n,
            inr (old, there, fits, refl, refl, refl, refl),
          )

preferred_idem : {A : Type 0} (a b : Option A) → preferred a (preferred a b) ≡ preferred a b
preferred_idem none b = refl
preferred_idem (some a) b = refl

preferred_last : {A : Type 0} (a b : Option A) → preferred (preferred a b) b ≡ preferred a b
preferred_last none none = refl
preferred_last none (some b) = refl
preferred_last (some a) b = refl

some-preferred : {A : Type 0} (a b : Option A) → (is_some b || is_some a) ≡ is_some (preferred a b)
some-preferred none none = refl
some-preferred none (some b) = refl
some-preferred (some a) none = refl
some-preferred (some a) (some b) = refl

keeps-preferred : {A : Type 0} (a b : Option A) → (is_some a ≡ false) ⊎ (preferred a b ≡ a)
keeps-preferred none b = inl refl
keeps-preferred (some a) b = inr refl

-- Equal fields give equal rows.
same_fields :
    {A B C D E F G H I : Type 0} (f : A → B → C → D → E → F → G → H → I → Memory) (a a' : A)
    (b b' : B) (c c' : C) (d d' : D) (e e' : E) (g g' : F) (h h' : G) (j j' : H) (k k' : I)
    → a ≡ a'
    → b ≡ b'
    → c ≡ c'
    → d ≡ d'
    → e ≡ e'
    → g ≡ g'
    → h ≡ h'
    → j ≡ j'
    → k ≡ k'
    → f a b c d e g h j k ≡ f a' b' c' d' e' g' h' j' k'
same_fields f a a' b b' c c' d d' e e' g g' h h' j j' k k' p q r s t u v w x =
    cc (p, q, r, s, t, u, v, w, x)

merge_fact_idem :
    (existing candidate : Memory)
    → merge_fact (merge_fact existing candidate) candidate ≡ merge_fact existing candidate
unfolding merge_fact
merge_fact_idem e c =
    same_fields
      (λ content vector outcome scope summary indexed occurred_at source_session host. record e {
        content = content;
        vector = vector;
        outcome = outcome;
        scope = scope;
        summary = summary;
        indexed = indexed;
        occurred_at = occurred_at;
        source_session = source_session;
        host = host;
      })
      _ _ _ _ _ _ _ _ _ _ _ _ _ _ _ _ _ _ (content_again (is_longer c e) refl)
      (vector_again (is_longer c e) refl) (preferred_idem c.outcome e.outcome)
      (preferred_last e.scope c.scope) (preferred_last e.summary c.summary) (ground arith)
      (preferred_idem c.occurred_at e.occurred_at)
      (preferred_idem c.source_session e.source_session) (preferred_idem c.host e.host)
  where
    content_again :
        (t : Bool)
        → is_longer c e ≡ t
        → (if ltb (byte_length (if t then c.content else e.content)) (byte_length c.content)
            then c.content
            else (if t then c.content else e.content))
          ≡ (if t then c.content else e.content)
    content_again true h = ground arith
    content_again false h = rw h refl

    vector_again :
        (t : Bool)
        → is_longer c e ≡ t
        → (if ltb (byte_length (if t then c.content else e.content)) (byte_length c.content)
            then c.vector
            else (if t then c.vector else e.vector))
          ≡ (if t then c.vector else e.vector)
    vector_again true h = ground arith
    vector_again false h = rw h refl

-- A merge keeps the row's id, creation, origin and type, and a scope that it has; an outcome, a
-- time, a session and a host are there afterwards exactly if one of the two rows had one; and
-- merging the same candidate once more changes nothing.
pub merge_fact_lem :
    (existing candidate : Memory)
    → let m = merge_fact existing candidate in
      ((m.id ≡ existing.id)
        × (m.created_at ≡ existing.created_at)
        × (m.origin ≡ existing.origin)
        × (m.type ≡ existing.type))
      × ((is_some existing.scope ≡ false) ⊎ (m.scope ≡ existing.scope))
      × ((is_some existing.outcome || is_some candidate.outcome) ≡ is_some m.outcome)
      × ((is_some existing.occurred_at || is_some candidate.occurred_at) ≡ is_some m.occurred_at)
      × ((is_some existing.source_session || is_some candidate.source_session)
          ≡ is_some m.source_session)
      × ((is_some existing.host || is_some candidate.host) ≡ is_some m.host)
      × (merge_fact m candidate ≡ m)
unfolding merge_fact
merge_fact_lem existing candidate = (
  (refl, refl, refl, refl),
  keeps-preferred existing.scope candidate.scope,
  some-preferred candidate.outcome existing.outcome,
  some-preferred candidate.occurred_at existing.occurred_at,
  some-preferred candidate.source_session existing.source_session,
  some-preferred candidate.host existing.host,
  merge_fact_idem existing candidate,
)
