-- ===== src/Chains/Marker.antt =====
-- The rows whose text carries a marker of unfinished work, with their neighbours, and the handler of
-- the three scans (src/http/chains.rs). `lower` is the lower case of a text.
use linggen_memory.Prelude.{
  ℕ, String, Bool, not, ◌&&◌, ◌||◌, Option, none, some, List, [], ◌∷◌, find, keep, take, drop,
  length, eqb, leb, sort_by, or_else, max, if◌then◌else◌, ◌==◌, is_some,
}
use linggen_memory.Text.{strip_text}
use linggen_memory.Types.{Memory, Instant, Float}
use linggen_memory.Hybrid.{Floats, total_key, float_le}
use linggen_memory.Recall.{cosine_similarity}
use linggen_memory.Clusters.{
  citation_edges, numbered, in_cited, is_derived_note, is_core, Member, subject_clusters,
}
use linggen_memory.Chains.{Chain, cited_chains}

abbrev pub markers_ci : List String
markers_ci =
    "uncommitted" ∷ "not committed" ∷ "not started" ∷ "unbuilt" ∷ "deferred" ∷ "in progress"
    ∷ "awaiting" ∷ "still pending" ∷ "build pending" ∷ "impl pending" ∷ []

abbrev pub markers_cs : List String
markers_cs = "OPEN:" ∷ "OPEN(" ∷ "TODO:" ∷ "NEXT:" ∷ "PENDING" ∷ []

abbrev pub neighbor_floor : Float
neighbor_floor = 0x3F19_999A

abbrev pub neighbors_per_row : ℕ
neighbors_per_row = 5

-- `str::contains`.
abbrev pub has_text : String → String → Bool
has_text String.[] text = is_some (strip_text text "")
has_text (String.◌∷◌ c s) text = is_some (strip_text text (String.◌∷◌ c s)) || has_text s text

abbrev pub find_marker : (String → String) → String → Option String
find_marker lower content = elim (find (has_text content) markers_cs) [
  | some marker ↦ some marker
  | none ↦ find (has_text (lower content)) markers_ci
]

-- A row that carries a marker, with its place.
pub record Marked : Type 0 where
  pub index : ℕ
  pub row : Memory
  pub marker : String

abbrev pub is_open : List (ℕ × ℕ) → Bool → ℕ × Memory → Bool
is_open edges derived_only (n, m) =
    (not (in_cited edges n) && not (is_core m.tier)) && (not derived_only || is_derived_note m)

abbrev pub with_markers : (String → String) → List (ℕ × Memory) → List Marked
with_markers lower [] = []
with_markers lower ((n, m) ∷ ms) = elim (find_marker lower m.content) [
  | none ↦ with_markers lower ms
  | some marker ↦ record { index = n; row = m; marker = marker } ∷ with_markers lower ms
]

-- Every row with a marker that the citations do not already show.
unfoldable pub open_rows : (String → String) → List Memory → Bool → List Marked
unfolding citation_edges
open_rows lower rows derived_only =
    with_markers lower (keep (is_open (citation_edges rows) derived_only) (numbered 0 rows))

abbrev pub is_issued : (String → Bool) → Marked → Bool
is_issued issued c = issued c.row.id

module _ (fl : Floats) where
  abbrev scored : List Float → ℕ → List (ℕ × Memory) → List (Float × Memory)
  scored query i [] = []
  scored query i ((n, m) ∷ ms) =
      let rest = scored query i ms in
      elim m.vector [
        | none ↦ rest
        | some v ↦
            let score = cosine_similarity fl query v in
            if not (eqb n i) && float_le neighbor_floor score then (score, m) ∷ rest else rest
      ]

  abbrev pub nearer : Float × Memory → Float × Memory → Bool
  nearer a b = leb (total_key b.0) (total_key a.0)

  -- The score of a reply is rounded to three digits; here it is whole.
  unfoldable pub neighbors_of : List Memory → Marked → List (Float × Memory)
  neighbors_of rows c = elim c.row.vector [
    | none ↦ []
    | some query ↦ take neighbors_per_row (sort_by nearer (scored query c.index (numbered 0 rows)))
  ]

  abbrev pub with_neighbors : List Memory → List Marked → List (Marked × List (Float × Memory))
  with_neighbors rows [] = []
  with_neighbors rows (c ∷ cs) = (c, neighbors_of rows c) ∷ with_neighbors rows cs

  -- The total, the page, and how many were left out as queued already.
  unfoldable pub marker_candidates :
      (String → String)
      → List Memory
      → (limit offset : ℕ) → Bool
      → (String → Bool)
      → ℕ × List (Marked × List (Float × Memory)) × ℕ
  unfolding open_rows neighbors_of
  marker_candidates lower rows limit offset derived_only issued =
      let candidates = open_rows lower rows derived_only in
      let marked = keep (λ c. not (is_issued issued c)) candidates in
      (
        length marked,
        with_neighbors rows (take limit (drop offset marked)),
        length (keep (is_issued issued) candidates),
      )

  pub record ChainsRequest : Type 0 where
    pub kind : Option String
    pub limit : Option ℕ
    pub offset : Option ℕ
    pub derived_only : Bool

  pub data Scan : Type 0 where
    cited : ℕ × List Chain → Scan
    marker : ℕ × List (Marked × List (Float × Memory)) × ℕ → Scan
    subject : ℕ × List (List Member) × ℕ → Scan
    bad_request : Scan

  -- `rows` is what the store lists, oldest first; `issued` and `ruled` are tests on the issue file.
  unfoldable pub chains :
      (String → String)
      → List Memory
      → (issued ruled : String → Bool) → Instant
      → ChainsRequest
      → Scan
  unfolding marker_candidates cited_chains subject_clusters
  chains lower rows issued ruled now req =
      let kind = or_else req.kind "cited" in
      let limit = max 1 (or_else req.limit 10) in
      let offset = or_else req.offset 0 in
      if kind == "cited"
      then cited (cited_chains rows limit offset req.derived_only)
      else if kind == "marker"
      then marker (marker_candidates lower rows limit offset req.derived_only issued)
      else if kind == "subject"
      then subject (subject_clusters fl rows limit offset req.derived_only ruled now)
      else bad_request
