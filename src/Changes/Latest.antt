-- ===== src/Changes/Latest.antt =====
-- `latest_per_id` keeps exactly the newest entry of each id, in order.
use linggen_memory.Prelude.{
  ℕ, suc, ◌≤◌, ap, String, ◌==◌, eq_iff, eq_refl, ◌≡◌, ◌∙◌, refl, ◌||◌, Bool, true, false, Option,
  none, some, List, [], ◌∷◌, ◌++◌, arith, if◌then◌else◌, any, Bool-cases, Assoc, lookup, insert,
  lookup-insert, inl, inr,
}
use linggen_memory.Changes.{Entry, fill, is_at, kept_at, latest_per_id}

abbrev pub occurs : String → List Entry → Bool
occurs k es = any (λ (e : Entry). e.id == k) es

-- The reference: an entry stays unless a later one has its id.
unfoldable pub newest : List Entry → List Entry
newest [] = []
newest (e ∷ es) = let rest = newest es in if occurs e.id es then rest else e ∷ rest

-- The last entry for an id.
unfoldable pub last_for : String → List Entry → Option Entry
last_for k [] = none
last_for k (e ∷ es) =
    let rest = last_for k es in if occurs k es then rest else if e.id == k then some e else none

lookup-fill_absent :
    (k : String) (i : ℕ) (es : List Entry) (m : Assoc ℕ)
    → occurs k es ≡ false
    → lookup k (fill i es m) ≡ lookup k m
lookup-fill_absent k i [] m h = refl
lookup-fill_absent k i (e ∷ es) m h =
    ground (arith, lookup-fill_absent k (suc i) es (insert e.id i m), lookup-insert e.id k i m)

lookup-fill_present :
    (k : String) (i : ℕ) (es : List Entry) (m : Assoc ℕ)
    → occurs k es ≡ true
    → (j : ℕ) × (lookup k (fill i es m) ≡ some j) × (i ≤ j)
lookup-fill_present k i [] m h = cc
lookup-fill_present k i (e ∷ es) m h = elim (Bool-cases (occurs k es)) [
  | inl later ↦
      let (j, found, le) = lookup-fill_present k (suc i) es (insert e.id i m) later in
      (j, found, omega arith)
  | inr none_later ↦ (
    i,
    ground (arith, lookup-fill_absent k (suc i) es (insert e.id i m), lookup-insert e.id k i m),
    omega arith,
  )
]

-- The map holds the index of `e`, at `i`, exactly when no later entry has its id.
is_at-fill :
    (e : Entry) (i : ℕ) (es : List Entry) (m : Assoc ℕ)
    → is_at (lookup e.id (fill i (e ∷ es) m)) i ≡ (if occurs e.id es then false else true)
is_at-fill e i es m = elim (Bool-cases (occurs e.id es)) [
  | inl later ↦
      let (j, found, le) = lookup-fill_present e.id (suc i) es (insert e.id i m) later in
      ground (arith, found, le)
  | inr gone ↦ ground (
    arith,
    lookup-fill_absent e.id (suc i) es (insert e.id i m),
    lookup-insert e.id e.id i m,
    eq_refl e.id,
  )
]

kept_at-fill : (i : ℕ) (es : List Entry) (m : Assoc ℕ) → kept_at (fill i es m) i es ≡ newest es
unfolding newest
kept_at-fill i [] m = refl
kept_at-fill i (e ∷ es) m =
    ground (arith, is_at-fill e i es m, kept_at-fill (suc i) es (insert e.id i m))

-- The two passes over the map of last indices compute the reference.
pub latest_per_id-eq-newest : (es : List Entry) → latest_per_id es ≡ newest es
unfolding latest_per_id
latest_per_id-eq-newest es = kept_at-fill 0 es []

pub occurs-append :
    (k : String) (xs ys : List Entry) → occurs k (xs ++ ys) ≡ (occurs k xs || occurs k ys)
occurs-append k [] ys = refl
occurs-append k (e ∷ xs) ys = ground (arith, occurs-append k xs ys)

pub occurs-newest : (k : String) (es : List Entry) → occurs k (newest es) ≡ occurs k es
unfolding newest
occurs-newest k [] = refl
occurs-newest k (e ∷ es) = ground (arith, occurs-newest k es, eq_iff e.id k)

pub last_for_absent : (k : String) (es : List Entry) → occurs k es ≡ false → last_for k es ≡ none
unfolding last_for
last_for_absent k [] h = refl
last_for_absent k (e ∷ es) h = ground arith

pub occurs_same : (j k : String) (es : List Entry) → (j == k) ≡ true → occurs j es ≡ occurs k es
occurs_same j k es h = ap (λ i. occurs i es) ((eq_iff j k).0 h)

pub last_for-newest : (k : String) (es : List Entry) → last_for k (newest es) ≡ last_for k es
unfolding newest last_for
last_for-newest k [] = refl
last_for-newest k (e ∷ es) =
    ground
      (arith, last_for-newest k es, occurs-newest k es, occurs_same e.id k es, last_for_absent k es)

pub newest_idem : (es : List Entry) → newest (newest es) ≡ newest es
unfolding newest
newest_idem [] = refl
newest_idem (e ∷ es) = elim (Bool-cases (occurs e.id es)) [
  | inl later ↦ rw later (newest_idem es)
  | inr gone ↦ rw (gone, occurs-newest e.id es, gone) (ap (λ l. e ∷ l) (newest_idem es))
]

-- No id stands twice.
abbrev pub HasDistinctIds : List Entry → Type 0
HasDistinctIds [] = Unit
HasDistinctIds (e ∷ es) = (occurs e.id es ≡ false) × HasDistinctIds es

newest-HasDistinctIds : (es : List Entry) → HasDistinctIds (newest es)
unfolding newest
newest-HasDistinctIds [] = tt
newest-HasDistinctIds (e ∷ es) = elim (Bool-cases (occurs e.id es)) [
  | inl later ↦ rw later (newest-HasDistinctIds es)
  | inr gone ↦ rw gone (occurs-newest e.id es ∙ gone, newest-HasDistinctIds es)
]

-- For every list of entries and every id, the compacted list names each id at most once, and
-- its last entry for the id is the last entry of the whole list.
pub latest_per_id-exact :
    (es : List Entry)
    → HasDistinctIds (latest_per_id es)
      × ((k : String) → last_for k (latest_per_id es) ≡ last_for k es)
latest_per_id-exact es =
    rw latest_per_id-eq-newest (newest-HasDistinctIds es, λ k. last_for-newest k es)
