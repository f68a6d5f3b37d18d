-- ===== src/Session.antt =====
-- What a session loads at its start (src/http/session.rs): the core rows, the line of scopes, and the
-- index of the rows filed at its directory and the parents, within a budget of characters.
pub mod Budget
use Prim.Native.String
use linggen_memory.Prelude.{
  ℕ, zero, suc, ◌+◌, ◌-◌, String, ◌==◌, Bool, true, false, not, ◌&&◌, ◌||◌, Option, none, some,
  List, [], ◌∷◌, ◌++◌, length, map, any, keep, eqb, ltb, leb, or_else, if◌then◌else◌, sort_by,
}
use linggen_memory.Text.{trim, is_empty}
use linggen_memory.Text.Words.{char_count, take_chars, join_with, split_words, decimal}
use linggen_memory.Types.{Memory, Tier, activity_timestamp}
use linggen_memory.Tables.{TableApi}
use linggen_memory.Paths
use linggen_memory.Paths.{FilePath}
use linggen_memory.Scope.{
  Disk, RecallScope, no_root, to_str, expand, find_root, recall_scope, index_chain,
}
use linggen_memory.Scope.Candidates.{candidates}
use linggen_memory.Scope.Naming.{concat, display, candidates_line}
use linggen_memory.Store.{TableName, semantic, episodic, Node}
use linggen_memory.Store.Filters.{Filters, AccountScope, default, from_args}
use linggen_memory.Store.Queries.{usize_max, newest, list}

abbrev pub core_limit : ℕ
core_limit = 200

abbrev pub index_budget_chars : ℕ
index_budget_chars = 3000

abbrev pub index_fetch : ℕ
index_fetch = 500

pub record SessionStartRequest : Type 0 where
  pub account : Option String
  pub cwd : Option String
  pub root : Option String
  pub core : Bool

-- Where a session stands; `chain` is its directory and the parents that can hold rows.
pub record Place : Type 0 where
  pub home : FilePath
  pub cwd : FilePath
  pub root : FilePath
  pub chain : List FilePath

abbrev pub is_no_root : RecallScope → Bool
is_no_root no_root = true
is_no_root r = false

module _ (home tmp : FilePath) (disk : Disk) where
  abbrev pub root_of : Option String → FilePath → FilePath
  root_of none cwd = find_root home tmp disk cwd
  root_of (some r) cwd = or_else (expand r home) (find_root home tmp disk cwd)

  abbrev pub place_at : Option FilePath → Option String → Option Place
  place_at none root = none
  place_at (some cwd) root =
      let r = root_of root cwd in
      if is_no_root (recall_scope home tmp (to_str r))
      then none
      else some (record { home = home; cwd = cwd; root = r; chain = index_chain home tmp cwd })

  -- `Place::of`.
  unfoldable pub place_of : Option String → Option String → Option Place
  place_of none root = none
  place_of (some cwd) root = place_at (expand cwd home) root

abbrev pub line : Memory → String
line row = concat ("- " ∷ trim row.content ∷ " (id=" ∷ row.id ∷ ")" ∷ [])

-- The opening of a content on one line.
abbrev pub opening : String → String
opening content =
    let flat = join_with " " (split_words "" content) in
    if leb (char_count flat) 80 then flat else String.◌++◌ (take_chars 79 flat) "…"

unfoldable pub index_line : Memory → String
index_line row =
    concat ("- " ∷ or_else row.summary (opening row.content) ∷ " (id=" ∷ row.id ∷ ")" ∷ [])

abbrev pub render : List Memory → String
render [] = ""
render (m ∷ ms) =
    String.◌++◌ "## Core memory — who the user is\n\n" (join_with "\n" (map line (m ∷ ms)))

-- The place of the first directory that is a row's scope.
abbrev pub position_from : ℕ → List FilePath → String → ℕ
position_from i [] s = usize_max
position_from i (d ∷ ds) s =
    let later = position_from (i + 1) ds s in if to_str d == s then i else later

abbrev pub depth_of : List FilePath → Option String → ℕ
depth_of ds none = usize_max
depth_of ds (some s) = position_from 0 ds s

abbrev pub depth : Place → Memory → ℕ
depth p row = depth_of p.chain row.scope

abbrev pub is_before : Place → Memory → Memory → Bool
is_before p a b =
    ltb (depth p a) (depth p b)
    || (eqb (depth p a) (depth p b) && leb (activity_timestamp b) (activity_timestamp a))

-- `dedup_by` on the ids: of rows in a sequence with one id the first stays.
unfoldable pub dedup_after : Memory → List Memory → List Memory
dedup_after last [] = []
dedup_after last (m ∷ ms) =
    let same = dedup_after last ms in
    let fresh = dedup_after m ms in if m.id == last.id then same else m ∷ fresh

abbrev pub dedup : List Memory → List Memory
dedup [] = []
dedup (m ∷ ms) = m ∷ dedup_after m ms

abbrev pub index_footer : String
index_footer =
    "\nThese are standing rows filed for this directory: read one in full with memory_get(id) when its summary bears on the task."

unfoldable pub skipped_note : ℕ → String
skipped_note n = concat (
    "\n("
    ∷ decimal n
    ∷ " more indexed row(s) over the "
    ∷ decimal index_budget_chars
    ∷ "-char budget — memory_search reaches them.)"
    ∷ [])

-- The variables of the loop.
pub record Rendered : Type 0 where
  pub shown : List Memory
  pub out : String
  pub used : ℕ
  pub current : Option String
  pub skipped : ℕ

abbrev pub start : Rendered
start = record { shown = []; out = ""; used = 0; current = none; skipped = 0 }

abbrev pub is_current : Option String → String → Bool
is_current none dir = false
is_current (some d) dir = d == dir

-- The heading that a row of another directory brings.
abbrev pub heading_of : Place → Rendered → String → Option String
heading_of p r dir =
    if is_current r.current dir
    then none
    else some (concat ("## Index — " ∷ display (Paths.parse dir) p.root p.home ∷ "\n" ∷ []))

abbrev pub heading_cost : Option String → ℕ
heading_cost none = 0
heading_cost (some h) = char_count h + 1

abbrev pub headed : Option String → String → String → Rendered → Rendered
headed none dir entry r = record r { out = String.◌++◌ r.out entry }
headed (some h) dir entry r = record r {
  out =
      if is_empty r.out
      then String.◌++◌ h entry
      else String.◌++◌ r.out (String.◌++◌ "\n" (String.◌++◌ h entry));
  current = some dir;
}

unfoldable pub show_row : Place → ℕ → Memory → Rendered → Rendered
show_row p budget row r =
    let dir = or_else row.scope "" in
    let heading = heading_of p r dir in
    let entry = String.◌++◌ (index_line row) "\n" in
    let cost = heading_cost heading + char_count entry in
    if ltb budget (r.used + cost)
    then record r { skipped = r.skipped + 1 }
    else record (headed heading dir entry r) { shown = r.shown ++ row ∷ []; used = r.used + cost }

unfoldable pub show_rows : Place → ℕ → List Memory → Rendered → Rendered
show_rows p budget [] r = r
show_rows p budget (row ∷ rows) r = show_rows p budget rows (show_row p budget row r)

abbrev pub closed_on : List Memory → String → ℕ → String
closed_on [] out skipped = ""
closed_on (m ∷ ms) out skipped =
    String.◌++◌ out (String.◌++◌ index_footer (if ltb 0 skipped then skipped_note skipped else ""))

abbrev pub closed : Rendered → String
closed r = closed_on r.shown r.out r.skipped

-- The rows of the index in the order that they are tried.
unfoldable pub ordered : Place → List Memory → List Memory
ordered p rows = dedup (sort_by (is_before p) (keep (λ m. not (eqb (depth p m) usize_max)) rows))

abbrev pub budget_for : List Memory → ℕ
budget_for rows =
    index_budget_chars - (char_count index_footer + char_count (skipped_note (length rows)))

unfoldable pub render_index : List Memory → Place → List Memory × String × ℕ
render_index rows p =
    let tried = ordered p rows in
    let r = show_rows p (budget_for tried) tried start in (r.shown, closed r, r.skipped)

pub record SessionStart : Type 0 where
  pub core : List Memory
  pub index : List Memory
  pub core_block : String
  pub candidates : List (String × String)
  pub candidates_line : String
  pub index_block : String
  pub skipped : ℕ
  pub block : String

abbrev pub blocks : List String → String
blocks bs = join_with "\n\n" (keep (λ b. not (is_empty b)) bs)

module _ (home tmp : FilePath) (disk : Disk) where
  abbrev pub offered : Place → List (String × String)
  offered p =
      map (λ c. (to_str c, display c p.root p.home)) (candidates p.home tmp disk p.root p.cwd)

  -- `SessionStart::build`.
  unfoldable pub build : List Memory → List Memory → Option Place → SessionStart
  build core index none = record {
    core = core;
    index = [];
    core_block = render core;
    candidates = [];
    candidates_line = "";
    index_block = "";
    skipped = 0;
    block = blocks (render core ∷ "" ∷ "" ∷ []);
  }
  build core index (some p) =
      let (shown, block, skipped) = render_index index p in
      let scopes = candidates_line p.home tmp disk p.root p.cwd in
      record {
        core = core;
        index = shown;
        core_block = render core;
        candidates = offered p;
        candidates_line = scopes;
        index_block = block;
        skipped = skipped;
        block = blocks (render core ∷ scopes ∷ block ∷ []);
      }

  module _ (db : TableApi) (like : String → String → Bool) where
    abbrev pub index_filters : AccountScope → Place → Filters
    index_filters account p = record default {
      indexed = some true;
      scope_in = map to_str p.chain;
      account = account;
    }

    abbrev pub index_rows : AccountScope → Option Place → Node db → List Memory
    index_rows account none n = []
    index_rows account (some p) n =
        list db home tmp like semantic (index_filters account p) newest index_fetch 0 n
        ++ list db home tmp like episodic (index_filters account p) newest index_fetch 0 n

    abbrev pub core_rows : Bool → AccountScope → Node db → List Memory
    core_rows asked account n =
        if asked
        then list db home tmp like semantic
            (record default { tier = some Tier.core; account = account }) newest core_limit 0 n
        else []

    unfoldable pub session_start : SessionStartRequest → Node db → SessionStart
    session_start req n =
        let account = from_args req.account false in
        let place = place_of home tmp disk req.cwd req.root in
        build (core_rows req.core account n) (index_rows account place n) place
