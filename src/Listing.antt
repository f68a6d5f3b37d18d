-- ===== src/Listing.antt =====
-- The handlers that read rows by filter or by id (src/http/memory.rs): list, count and get, and the
-- filters of a request. `bounds` is the reading of a day with the start and the end of it.
pub mod Merging
pub mod Pages
use linggen_memory.Prelude.{
  ℕ, ◌+◌, min, max, String, ◌==◌, Bool, true, false, not, ◌&&◌, ◌||◌, Option, none, some, List, [],
  ◌∷◌, ◌++◌, any, is_some, or_else, eqb, take, drop, sort_by, if◌then◌else◌,
}
use linggen_memory.Paths.{FilePath}
use linggen_memory.Text.{trim}
use linggen_memory.Types.{
  Memory, MemoryType, type_str, Tier, Origin, Outcome, Instant, activity_timestamp,
}
use linggen_memory.Tables.{TableApi}
use linggen_memory.Store.{TableName, Node}
use linggen_memory.Store.Filters.{AccountScope, admits, Filters, matches}
use linggen_memory.Store.Queries.{SortOrder, newest, comes_first, list, count_filtered, usize_max}
use linggen_memory.Days.{DaysState, load, stamp_of, ttl_cutoff}
use linggen_memory.Writes.{stores_for_read, locate_in}

pub record FilterDto : Type 0 where
  pub apps : List String
  pub contexts_any : List String
  pub indexed : Option Bool
  pub scope : AccountScope
  pub type : Option MemoryType
  pub types : List MemoryType
  pub exclude_types : List MemoryType
  pub tier : Option Tier
  pub origin : Option Origin
  pub outcome : Option Outcome
  pub since : Option Instant
  pub until : Option Instant
  pub source_session : Option String
  pub scope_root : Option String
  pub past_ttl : Bool
  pub day : Option String
  pub include_expired : Bool
  pub superseded_by : Option String

pub record ListRequest : Type 0 where
  pub filters : FilterDto
  pub sort : SortOrder
  pub limit : ℕ
  pub offset : ℕ
  pub episodic : Option Bool
  pub unjudged : Bool

-- Set, unless a value is there.
abbrev pub fill {ℓ} : {A : Type ℓ} → Option A → A → Option A
fill (some v) w = some v
fill none w = some w

abbrev with_bounds : Option (Instant × Instant) → FilterDto → Option FilterDto
with_bounds none f = none
with_bounds (some (start, end)) f =
    some (record f { day = none; since = fill f.since start; until = fill f.until end })

unfoldable pub resolve_day : (String → Option (Instant × Instant)) → FilterDto → Option FilterDto
resolve_day bounds f = elim f.day [ none ↦ some f | some day ↦ with_bounds (bounds day) f ]

abbrev with_type : Option MemoryType → List MemoryType → List MemoryType
with_type none types = types
with_type (some t) types =
    if any (λ u. type_str u == type_str t) types then types else types ++ t ∷ []

-- Each app that is not there yet.
abbrev with_apps : List String → List String → List String
with_apps apps [] = apps
with_apps apps (a ∷ more) = with_apps (if any (λ b. b == a) apps then apps else apps ++ a ∷ []) more

abbrev filters_of : FilterDto → Option Instant → Filters
filters_of f created_since = record {
  apps = with_apps f.apps f.contexts_any;
  indexed = f.indexed;
  scope_in = [];
  no_skills = false;
  account = f.scope;
  types = with_type f.type f.types;
  exclude_types = f.exclude_types;
  origin = f.origin;
  outcome = f.outcome;
  tier = f.tier;
  since = f.since;
  until = f.until;
  created_since = created_since;
  source_session = f.source_session;
  scope_root = f.scope_root;
  include_expired = f.include_expired;
  superseded_by = f.superseded_by;
}

-- `none` is a day that does not parse.
abbrev pub into_filters :
    (String → Option (Instant × Instant)) → Option Instant → FilterDto → Option Filters
into_filters bounds created_since f = elim (resolve_day bounds f) [
  | none ↦ none
  | some g ↦ some (filters_of g created_since)
]

-- The TTL as a bound, and the table that it is about.
abbrev pub with_past_ttl : Instant → ℕ → ListRequest → ListRequest
with_past_ttl now ttl_days req =
    if req.filters.past_ttl
    then record req {
      filters = record req.filters { until = fill req.filters.until (ttl_cutoff now ttl_days) };
      episodic = fill req.episodic true;
    }
    else req

-- `none` is a refusal: no day is given.
abbrev pub unjudged_since : Option DaysState → ListRequest → Option (Option Instant)
unjudged_since file req =
    if req.unjudged
    then elim req.filters.day [ none ↦ none | some day ↦ some (stamp_of (load file) (trim day)) ]
    else some none

module _ (db : TableApi) (home tmp : FilePath) (like : String → String → Bool) where
  -- `limit + offset` rows of each table, one after the other.
  abbrev pub combined : List TableName → Filters → SortOrder → (limit : ℕ) → Node db → List Memory
  combined [] f order limit n = []
  combined (w ∷ ws) f order limit n =
      list db home tmp like w f order limit 0 n ++ combined ws f order limit n

  -- The rows of one page.
  unfoldable pub list_page :
      Option Bool → Filters → SortOrder → (limit offset : ℕ) → Node db → List Memory
  list_page episodic f order limit offset n =
      let first = min (limit + offset) usize_max in
      let rows = combined (stores_for_read episodic) f order first n in
      take limit (drop offset (sort_by (comes_first order) rows))

  -- `none` is a refusal.
  unfoldable pub list_rows :
      (String → Option (Instant × Instant))
      → Instant
      → ℕ
      → Option DaysState
      → ListRequest
      → Node db
      → Option (List Memory)
  unfolding list_page resolve_day
  list_rows bounds now ttl_days file asked n =
      let req = with_past_ttl now ttl_days asked in
      elim (unjudged_since file req) [
        | none ↦ none
        | some created_since ↦ elim (into_filters bounds created_since req.filters) [
          | none ↦ none
          | some f ↦ some (list_page req.episodic f req.sort req.limit req.offset n)
        ]
      ]

  abbrev count_in : List TableName → Filters → Node db → ℕ
  count_in [] f n = 0
  count_in (w ∷ ws) f n =
      min (count_filtered db (matches home tmp like f) w n + count_in ws f n) usize_max

  abbrev newer : List Memory → Option Instant → Option Instant
  newer [] latest = latest
  newer (m ∷ ms) none = some (activity_timestamp m)
  newer (m ∷ ms) (some t) = some (max t (activity_timestamp m))

  abbrev latest_from : List TableName → Filters → Node db → Option Instant → Option Instant
  latest_from [] f n latest = latest
  latest_from (w ∷ ws) f n latest =
      latest_from ws f n (newer (list db home tmp like w f newest 1 0 n) latest)

  -- How many rows there are, and when the last one was active.
  unfoldable pub count : Option Bool → Filters → Node db → ℕ × Option Instant
  count episodic f n =
      let total = count_in (stores_for_read episodic) f n in
      (total, if eqb total 0 then none else latest_from (stores_for_read episodic) f n none)

-- A row that the caller may not see is answered as a missing one.
unfoldable pub get_by_id :
    (db : TableApi) → AccountScope → String → Option Bool → Node db → Option Memory
get_by_id db scope id episodic n = elim (locate_in db (stores_for_read episodic) id n) [
  | none ↦ none
  | some (w, m) ↦ if admits scope m then some m else none
]
