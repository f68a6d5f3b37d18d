-- ===== src/Store/Filters.antt =====
-- The filters of a query (`Filters`, `AccountScope` of src/memory/store.rs) on the current layout
-- of a table. The SQL that `to_sql` renders is read as the test on rows that it denotes: a clause on
-- a column that is NULL does not pass. `like` is the engine's LIKE, a text against a pattern.
use Prim.Native.String
use linggen_memory.Prelude.{
  String, ◌==◌, Bool, true, false, not, ◌&&◌, ◌||◌, Option, none, some, List, [], ◌∷◌, any, keep,
  leb, ltb, is_some, if◌then◌else◌,
}
use linggen_memory.Text.{trim, trim_slashes, is_empty}
use linggen_memory.Types.{
  Memory, MemoryType, Tier, Origin, Outcome, Instant, type_str, effective_timestamp,
}
use linggen_memory.Paths
use linggen_memory.Paths.{FilePath, join}
use linggen_memory.Scope.{RecallScope, owner, skill, no_root, skills, to_str, recall_scope, expand}

-- The rows of one person.
pub data AccountScope : Type 0 where
  owned : AccountScope
  id : String → AccountScope
  every : AccountScope

abbrev named_account : Option String → AccountScope
named_account none = owned
named_account (some a) = let t = trim a in if is_empty t then owned else id t

unfoldable pub from_args : Option String → Bool → AccountScope
from_args account all_accounts = if all_accounts then every else named_account account

-- `as_deref() == Some(…)`, and `column = '…'`.
abbrev pub is_text : Option String → String → Bool
is_text none s = false
is_text (some t) s = t == s

unfoldable pub admits : AccountScope → Memory → Bool
admits owned m = not (is_some m.account_id)
admits (id a) m = is_text m.account_id a
admits every m = true

pub record Filters : Type 0 where
  pub apps : List String
  pub indexed : Option Bool
  pub scope_in : List String
  pub no_skills : Bool
  pub account : AccountScope
  pub types : List MemoryType
  pub exclude_types : List MemoryType
  pub origin : Option Origin
  pub outcome : Option Outcome
  pub tier : Option Tier
  pub since : Option Instant
  pub until : Option Instant
  pub created_since : Option Instant
  pub source_session : Option String
  pub scope_root : Option String
  pub include_expired : Bool
  pub superseded_by : Option String

abbrev pub default : Filters
default = record {
  apps = [];
  indexed = none;
  scope_in = [];
  no_skills = false;
  account = owned;
  types = [];
  exclude_types = [];
  origin = none;
  outcome = none;
  tier = none;
  since = none;
  until = none;
  created_since = none;
  source_session = none;
  scope_root = none;
  include_expired = false;
  superseded_by = none;
}

abbrev pub is_nil {ℓ} : {A : Type ℓ} → List A → Bool
is_nil [] = true
is_nil (x ∷ xs) = false

-- No criterion that narrows. The account and the excluded types do not count.
unfoldable pub is_empty_filter : Filters → Bool
is_empty_filter f =
    is_nil f.apps
    && not (is_some f.indexed)
    && is_nil f.scope_in
    && not f.no_skills
    && is_nil f.types
    && not (is_some f.origin)
    && not (is_some f.outcome)
    && not (is_some f.tier)
    && not (is_some f.since)
    && not (is_some f.until)
    && not (is_some f.created_since)
    && not (is_some f.source_session)
    && not (is_some f.scope_root)
    && not (is_some f.superseded_by)

abbrev pub bool_eq : Bool → Bool → Bool
bool_eq true b = b
bool_eq false b = not b

abbrev pub outcome_eq : Outcome → Outcome → Bool
outcome_eq Outcome.positive Outcome.positive = true
outcome_eq Outcome.negative Outcome.negative = true
outcome_eq Outcome.neutral Outcome.neutral = true
outcome_eq _ _ = false

abbrev pub tier_eq : Tier → Tier → Bool
tier_eq Tier.core Tier.core = true
tier_eq Tier.semantic Tier.semantic = true
tier_eq Tier.episodic Tier.episodic = true
tier_eq _ _ = false

abbrev pub origin_eq : Origin → Origin → Bool
origin_eq Origin.user Origin.user = true
origin_eq Origin.agent Origin.agent = true
origin_eq Origin.derived Origin.derived = true
origin_eq _ _ = false

-- A clause that stands only if its criterion is given.
abbrev pub given {ℓ} : {A : Type ℓ} → Option A → (A → Bool) → Bool
given none p = true
given (some a) p = p a

-- A clause on a column that may be NULL.
abbrev pub on {ℓ} : {A : Type ℓ} → (A → Bool) → Option A → Bool
on p none = false
on p (some a) = p a

abbrev pub is_type : MemoryType → MemoryType → Bool
is_type t u = type_str t == type_str u

-- The archive gate.
abbrev pub is_shown : Filters → Memory → Bool
is_shown f m = elim f.superseded_by [
  | some s ↦ is_text m.superseded_by s
  | none ↦ f.include_expired || not (is_some m.expired_at)
]

module _ (home tmp : FilePath) (like : String → String → Bool) where
  -- `subtree_sql`: a directory and everything under it.
  unfoldable pub in_subtree : String → String → Bool
  in_subtree dir s = let p = trim_slashes dir in (s == p) || like s (String.◌++◌ p "/%")

  abbrev pub of_app : Memory → String → Bool
  of_app m name = on (in_subtree (to_str (join (skills home) (Paths.parse name)))) m.scope

  -- `recall_sql`.
  unfoldable pub in_recall : RecallScope → Option String → Bool
  unfolding in_subtree
  in_recall (owner root above) none = true
  in_recall (owner root above) (some s) = in_subtree root s || any (λ a. s == a) above
  in_recall (skill dir name) scope = on (in_subtree dir) scope
  in_recall no_root scope = not (is_some scope)

  -- `to_sql`; the origin is left to `apply_origin_filter`.
  unfoldable pub matches : Filters → Memory → Bool
  unfolding in_subtree in_recall admits
  matches f m =
      (is_nil f.apps || any (of_app m) f.apps)
      && given f.indexed (bool_eq m.indexed)
      && (not f.no_skills || not (on (in_subtree (to_str (skills home))) m.scope))
      && (is_nil f.scope_in || on (λ s. any (λ c. s == c) f.scope_in) m.scope)
      && admits f.account m
      && (is_nil f.types || any (is_type m.type) f.types)
      && not (any (is_type m.type) f.exclude_types)
      && given f.outcome (λ o. on (outcome_eq o) m.outcome)
      && given f.tier (tier_eq m.tier)
      && given f.since (λ t. leb t (effective_timestamp m))
      && given f.until (λ t. ltb (effective_timestamp m) t)
      && given f.created_since (λ t. leb t m.created_at)
      && given f.source_session (is_text m.source_session)
      && is_shown f m
      && given f.scope_root (λ p. in_recall (recall_scope home tmp p) m.scope)

-- What the post-fetch filter adds.
abbrev pub of_origin : Option Origin → Memory → Bool
of_origin o m = given o (origin_eq m.origin)

abbrev pub apply_origin_filter : Option Origin → List Memory → List Memory
apply_origin_filter o ms = keep (of_origin o) ms

-- How a search weighs rows: from a root that may not have been found.
abbrev pub ScopeWeigher : Type 0
ScopeWeigher = Option FilePath

abbrev pub weighed : RecallScope → Filters → FilePath → String → Filters × Option ScopeWeigher
weighed (skill dir name) f home raw = (f, none)
weighed r f home raw = (record f { scope_root = none; no_skills = true }, some (expand raw home))

unfoldable pub for_search : Filters → FilePath → FilePath → Filters × Option ScopeWeigher
for_search f home tmp = elim f.scope_root [
  | none ↦ (f, none)
  | some raw ↦ weighed (recall_scope home tmp raw) f home raw
]
