-- ===== src/Writes/Fields.antt =====
-- What a write makes of the fields of its request (src/http/memory.rs): tier, scope, summary and
-- patch.
use Prim.Native.String
use linggen_memory.Prelude.{
  ℕ, ◌-◌, String, Bool, true, false, not, ◌&&◌, ◌||◌, Option, none, some, List, [], ◌∷◌, or_else,
  leb, if◌then◌else◌, filter,
}
use linggen_memory.Paths.{FilePath}
use linggen_memory.Text.{trim, is_empty, trim_end_while, is_whitespace}
use linggen_memory.Text.Words.{char_count, take_chars, join_with, split_words}
use linggen_memory.Types.{
  Memory, MemoryType, fact, Tier, core, semantic, episodic, Origin, derived, Outcome, Instant, new,
}
use linggen_memory.Scope.{Disk, expand, is_scope_dir, find_root, is_valid_for, common, to_str}
use linggen_memory.Scope.Naming.{resolve}
use linggen_memory.Store.{TableName}
use linggen_memory.Store.Edits.{MemoryPatch}
use linggen_memory.Store.Filters.{AccountScope}

pub record AddRequest : Type 0 where
  pub content : String
  pub type : Option MemoryType
  pub origin : Option Origin
  pub outcome : Option Outcome
  pub cwd : Option String
  pub scope : Option String
  pub root : Option String
  pub summary : Option String
  pub indexed : Bool
  pub global : Bool
  pub occurred_at : Option Instant
  pub source_session : Option String
  pub host : Option String
  pub episodic : Bool
  pub tier : Option Tier
  pub skip_dedup : Bool
  pub replace_ids : List String
  pub user_directed : Bool
  pub account_id : Option String
  pub account_name : Option String

pub record UpdateRequest : Type 0 where
  pub id : String
  pub content : Option String
  pub summary : Option String
  pub clear_summary : Bool
  pub indexed : Option Bool
  pub type : Option MemoryType
  pub tier : Option Tier
  pub origin : Option Origin
  pub outcome : Option Outcome
  pub clear_outcome : Bool
  pub scope_dir : Option String
  pub clear_scope : Bool
  pub global : Bool
  pub host : Option String
  pub clear_host : Bool
  pub occurred_at : Option Instant
  pub clear_occurred_at : Bool
  pub episodic : Option Bool
  pub user_directed : Bool
  pub scope : AccountScope

-- `s.trim().is_empty()`.
abbrev pub is_blank : String → Bool
is_blank s = is_empty (trim s)

abbrev pub tier_rank : Tier → ℕ
tier_rank core = 2
tier_rank semantic = 1
tier_rank episodic = 0

abbrev pub is_core : Tier → Bool
is_core core = true
is_core _ = false

abbrev pub table_for : Tier → TableName
table_for episodic = TableName.episodic
table_for _ = TableName.semantic

abbrev pub is_table : TableName → TableName → Bool
is_table TableName.semantic TableName.semantic = true
is_table TableName.episodic TableName.episodic = true
is_table _ _ = false

-- `max_by_key`.
abbrev higher : Tier → Tier → Tier
higher a b = if leb (tier_rank a) (tier_rank b) then b else a

abbrev highest_from : Tier → List Memory → Tier
highest_from t [] = t
highest_from t (m ∷ ms) = highest_from (higher t m.tier) ms

abbrev pub resolve_tier : Option Tier → Bool → List Memory → Bool → Tier
resolve_tier asked true losers indexed = episodic
resolve_tier (some t) false losers indexed = t
resolve_tier none false (m ∷ ms) indexed = highest_from m.tier ms
resolve_tier none false [] true = semantic
resolve_tier none false [] false = episodic

abbrev pub summary_max_chars : ℕ
summary_max_chars = 80

unfoldable pub clean_summary : Option String → Option String
clean_summary none = none
clean_summary (some raw) =
    let line = join_with " " (split_words "" raw) in
    if is_empty line
    then none
    else if leb (char_count line) summary_max_chars
    then some line
    else some
        (String.◌++◌ (trim_end_while is_whitespace (take_chars (summary_max_chars - 1) line)) "…")

-- A new value wins over a clear.
abbrev pub set_or_clear {ℓ} : {A : Type ℓ} → Option A → Bool → Option (Option A)
set_or_clear (some v) clear = some (some v)
set_or_clear none true = some none
set_or_clear none false = none

abbrev pub scope_patch : Option String → Bool → Bool → Option (Option String)
scope_patch scope clear global = if global then some none else set_or_clear scope clear

abbrev pub non_blank : Option String → Option String
non_blank s = filter (λ t. not (is_blank t)) s

abbrev pub new_fact : String → Instant → AddRequest → Tier → Option String → Memory
new_fact id now req tier scope =
    record (new id now req.content (or_else req.type fact) (or_else req.origin derived)) {
      tier = tier;
      outcome = req.outcome;
      scope = scope;
      summary = clean_summary req.summary;
      indexed = req.indexed && not (is_core tier);
      occurred_at = req.occurred_at;
      source_session = req.source_session;
      host = req.host;
      account_id = non_blank req.account_id;
      account_name = non_blank req.account_name;
    }

-- The change of an update, `none` if its directory cannot be read.
abbrev pub patch_at : Option String → UpdateRequest → MemoryPatch
patch_at dir req = record {
  content = req.content;
  summary = set_or_clear (clean_summary req.summary) req.clear_summary;
  indexed = req.indexed;
  type = req.type;
  tier = req.tier;
  origin = req.origin;
  outcome = set_or_clear req.outcome req.clear_outcome;
  scope = scope_patch dir req.clear_scope req.global;
  occurred_at = set_or_clear req.occurred_at req.clear_occurred_at;
  source_session = none;
  host = set_or_clear req.host req.clear_host;
  vector = none;
  account_id = none;
  account_name = none;
}

abbrev pub patch_dir : Option String → UpdateRequest → Option MemoryPatch
patch_dir none req = none
patch_dir (some dir) req = some (patch_at (some dir) req)

abbrev pub patch_from :
    (String → Option String) → Option String → UpdateRequest → Option MemoryPatch
patch_from expand none req = some (patch_at none req)
patch_from expand (some d) req = patch_dir (expand d) req

abbrev pub patch_of : (String → Option String) → UpdateRequest → Option MemoryPatch
patch_of expand req = patch_from expand (non_blank req.scope_dir) req

-- A core row has no scope and is in no index.
abbrev pub pinned : Tier → MemoryPatch → MemoryPatch
pinned tier p = if is_core tier then record p { scope = some none; indexed = some false } else p

abbrev scopes_of : List Memory → List (Option String)
scopes_of [] = []
scopes_of (m ∷ ms) = m.scope ∷ scopes_of ms

module _ (home tmp : FilePath) (disk : Disk) where
  abbrev read_dir : Option String → Option FilePath
  read_dir none = none
  read_dir (some s) = expand s home

  abbrev text_of : Option FilePath → Option String
  text_of none = none
  text_of (some p) = some (to_str p)

  abbrev chosen : String → Option FilePath → Option FilePath
  chosen named (some r) =
      filter (λ d. is_valid_for home tmp disk d r) (resolve home tmp disk named (some r))
  chosen named none =
      filter (λ d. disk.is_dir d && is_scope_dir home tmp d) (resolve home tmp disk named none)

  abbrev root_or : Option FilePath → Option FilePath → Option FilePath
  root_or (some r) session = some r
  root_or none none = none
  root_or none (some s) = some (find_root home tmp disk s)

  -- A scope that was named, or the losers' common one.
  abbrev scope_from :
      Option String → Option FilePath → Option FilePath → List Memory → Option String
  scope_from (some named) root session losers = elim (chosen named root) [
    | some dir ↦ some (to_str dir)
    | none ↦ text_of session
  ]
  scope_from none root session [] = text_of session
  scope_from none root session (m ∷ ms) = common home tmp (scopes_of (m ∷ ms))

  unfoldable pub resolve_scope : AddRequest → List Memory → Tier → Option String
  resolve_scope req losers tier =
      let session = filter (is_scope_dir home tmp) (read_dir req.cwd) in
      let root = root_or (read_dir req.root) session in
      if req.global || is_core tier
      then none
      else scope_from (non_blank req.scope) root session losers
