-- ===== src/Clusters.antt =====
-- The subject clusters that the condense stage is offered, and the citations that it leaves out
-- (src/http/chains.rs). `fl` is the arithmetic of floats.
pub mod Apart
pub mod Sizes
pub mod Fuel
use Prim.Native.Char.{code}
use Prim.Native.String
use linggen_memory.Prelude.{
  ℕ, zero, suc, ◌+◌, ◌-◌, ◌*◌, String, Bool, true, false, not, ◌&&◌, ◌||◌, Option, none, some, List,
  [], ◌∷◌, ◌++◌, any, keep, map, take, drop, length, eqb, ltb, leb, max, or_else, sort_by,
  if◌then◌else◌,
}
use linggen_memory.Text.{strip_text, byte_length, between}
use linggen_memory.Text.Words.{char_count}
use linggen_memory.Types.{
  Memory, Instant, Float, Origin, Tier, core, semantic, derived, effective_timestamp,
}
use linggen_memory.Hybrid.{Floats, one, total_key, float_le}
use linggen_memory.Recall.{cosine_similarity}

abbrev pub subject_floor : Float
subject_floor = 0x3F33_3333

abbrev pub subject_quiet : ℕ
subject_quiet = 30 * 86400000000

abbrev pub subject_min_rows : ℕ
subject_min_rows = 3

abbrev pub subject_max_rows : ℕ
subject_max_rows = 12

-- `is_ascii_alphanumeric`.
abbrev pub is_word_char : ℕ → Bool
is_word_char c = between b'a' b'z' c || between b'A' b'Z' c || between b'0' b'9' c

abbrev pub begins_word : String → Bool
begins_word String.[] = false
begins_word (String.◌∷◌ c s) = is_word_char (code c)

-- Whether the last character is one, `before` for the empty text.
abbrev pub ends_word : Bool → String → Bool
ends_word before String.[] = before
ends_word before (String.◌∷◌ c s) = ends_word (is_word_char (code c)) s

-- From one place on: `before` is whether a letter or digit stands before it. A search goes on after the end
-- of an occurrence. The fuel is a round per character;
-- `none` is a search that has used it up.
unfoldable pub contains_from : ℕ → Bool → String → String → Option Bool
contains_from zero before s id = none
contains_from (suc n) before s id = elim (strip_text id s) [
  | none ↦ elim s [
    | String.[] ↦ some false
    | String.◌∷◌ c t ↦ contains_from n (is_word_char (code c)) t id
  ]
  | some rest ↦
      let later = contains_from n (ends_word before id) rest id in
      if not before && not (begins_word rest) then some true else later
]

unfoldable pub contains_id : String → String → Bool
unfolding contains_from
contains_id content id = or_else (contains_from (suc (char_count content)) false content id) false

abbrev pub numbered : ℕ → List Memory → List (ℕ × Memory)
numbered n [] = []
numbered n (m ∷ ms) = (n, m) ∷ numbered (suc n) ms

abbrev pub cites : ℕ × Memory → ℕ × Memory → Bool
cites cited citer = not (eqb citer.0 cited.0) && contains_id citer.1.content cited.1.id

abbrev pub edges_to : List (ℕ × Memory) → List (ℕ × Memory) → List (ℕ × ℕ)
edges_to rows [] = []
edges_to rows (cited ∷ rest) =
    (if ltb (byte_length cited.1.id) 8
      then []
      else map (λ (citer : ℕ × Memory). (citer.0, cited.0)) (keep (cites cited) rows))
    ++ edges_to rows rest

-- The pairs of a row and one that it cites.
unfoldable pub citation_edges : List Memory → List (ℕ × ℕ)
unfolding contains_id
citation_edges rows = edges_to (numbered 0 rows) (numbered 0 rows)

abbrev pub in_cited : List (ℕ × ℕ) → ℕ → Bool
in_cited edges n = any (λ (e : ℕ × ℕ). eqb e.0 n || eqb e.1 n) edges

abbrev is_derived : Origin → Bool
is_derived derived = true
is_derived _ = false

abbrev is_semantic : Tier → Bool
is_semantic semantic = true
is_semantic _ = false

abbrev pub is_core : Tier → Bool
is_core core = true
is_core _ = false

abbrev pub is_derived_note : Memory → Bool
is_derived_note m = is_derived m.origin && is_semantic m.tier

-- A row of the pool, with its place among the rows and its vector.
pub record Pooled : Type 0 where
  pub index : ℕ
  pub row : Memory
  pub vector : List Float

abbrev pub is_pooled : Bool → (String → Bool) → List (ℕ × ℕ) → ℕ × Memory → Bool
is_pooled derived_only ruled edges (n, m) =
    not (ruled m.id)
    && not (in_cited edges n)
    && not (is_core m.tier)
    && (not derived_only || is_derived_note m)

abbrev pub with_vectors : List (ℕ × Memory) → List Pooled
with_vectors [] = []
with_vectors ((n, m) ∷ ms) = elim m.vector [
  | none ↦ with_vectors ms
  | some v ↦ record { index = n; row = m; vector = v } ∷ with_vectors ms
]

unfoldable pub pool_of : List Memory → Bool → (String → Bool) → List Pooled
unfolding citation_edges
pool_of rows derived_only ruled =
    with_vectors (keep (is_pooled derived_only ruled (citation_edges rows)) (numbered 0 rows))

abbrev pub Member : Type 0
Member = Float × Pooled

abbrev pub index_of : Member → ℕ
index_of m = m.1.index

abbrev pub scores_before : Member → Member → Bool
scores_before a b = leb (total_key b.0) (total_key a.0)

abbrev pub is_assigned : List ℕ → ℕ → Bool
is_assigned assigned n = any (λ k. eqb k n) assigned

abbrev pub newest_from : Instant → List Member → Instant
newest_from t [] = t
newest_from t (m ∷ ms) = newest_from (max t (effective_timestamp m.1.row)) ms

-- What one seed adds: its cluster, whether one was left out as live, and the rows taken since.
pub record Turn : Type 0 where
  pub clusters : List (List Member)
  pub live : ℕ
  pub assigned : List ℕ

abbrev pub is_loose : Pooled → List ℕ → Pooled → Bool
is_loose seed assigned p = not (eqb p.index seed.index) && not (is_assigned assigned p.index)

abbrev pub is_near : Member → Bool
is_near m = float_le subject_floor m.0

abbrev pub closest : List Member → List Member
closest members = take (subject_max_rows - 1) (sort_by scores_before members)

abbrev pub settled : Instant → Pooled → List ℕ → List Member → Turn
settled now seed assigned members =
    let taken = seed.index ∷ map index_of members ++ assigned in
    if ltb now (newest_from (effective_timestamp seed.row) members + subject_quiet)
    then record { clusters = []; live = 1; assigned = taken }
    else record { clusters = ((one, seed) ∷ members) ∷ []; live = 0; assigned = taken }

module _ (fl : Floats) where
  abbrev pub score_with : Pooled → Pooled → Member
  score_with seed p = (cosine_similarity fl seed.vector p.vector, p)

  -- The loose rows near the seed.
  abbrev pub near : List Pooled → Pooled → List ℕ → List Member
  near pool seed assigned =
      keep is_near (map (score_with seed) (keep (is_loose seed assigned) pool))

  unfoldable pub turn : List Pooled → Instant → Pooled → List ℕ → Turn
  turn pool now seed assigned =
      let members = near pool seed assigned in
      let idle : Turn = record { clusters = []; live = 0; assigned = assigned } in
      if is_assigned assigned seed.index
      then idle
      else if ltb (length members + 1) subject_min_rows
      then idle
      else settled now seed assigned (closest members)

  unfoldable pub clusters_from :
      List Pooled → Instant → List Pooled → List ℕ → List (List Member) × ℕ
  unfolding turn
  clusters_from pool now [] assigned = ([], 0)
  clusters_from pool now (seed ∷ seeds) assigned =
      let t = turn pool now seed assigned in
      let (clusters, live) = clusters_from pool now seeds t.assigned in
      (t.clusters ++ clusters, t.live + live)

  -- The total, the page, and how many clusters were left out as live.
  unfoldable pub subject_clusters :
      List Memory
      → (limit offset : ℕ) → Bool
      → (String → Bool)
      → Instant
      → ℕ × List (List Member) × ℕ
  unfolding pool_of clusters_from
  subject_clusters rows limit offset derived_only ruled now =
      let pool = pool_of rows derived_only ruled in
      let (clusters, live) = clusters_from pool now pool [] in
      (length clusters, take limit (drop offset clusters), live)
