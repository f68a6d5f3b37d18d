-- ===== src/Tests/Writing.antt =====
-- The properties of the write handlers at a store with one row in the user's voice.
use linggen_memory.Prelude.{
  ◌==◌, eq_iff, Bool-cases, ◌≡◌, subst, inl, inr, refl, true, false, none, some, [], ◌∷◌,
}
use linggen_memory.Types.{Memory, Tier, new, fact, user, derived}
use linggen_memory.Tables.{row_tables}
use linggen_memory.Store.{TableName, Node, Io, semantic, episodic, get_row}
use linggen_memory.Store.Filters.{AccountScope}
use linggen_memory.Writes.{add, update}
use linggen_memory.Writes.Fields.{AddRequest, UpdateRequest}
use linggen_memory.Writes.Voice.{IsApart}
use linggen_memory.Writes.Kept
use linggen_memory.Writes.Kept.{Remains}
use linggen_memory.Writes.Rewrites
use linggen_memory.Writes.Rewrites.{Says}

abbrev disk : Io
disk = record { appended = true; rewritten = true }

abbrev tabs : Memory
tabs = record (new "a" 10 "tabs" fact user) { tier = Tier.episodic }

abbrev node : Node row_tables
node = record {
  semantic = new "b" 20 "spaces" fact derived ∷ [];
  episodic = tabs ∷ [];
  log = record { entries = []; next_seq = 1; file = linggen_memory.Changes.no_lines; fresh = true };
}

-- The same text as a core row, in place of the derived one.
abbrev request : AddRequest
request = record {
  content = "tabs";
  type = none;
  origin = none;
  outcome = none;
  cwd = none;
  scope = none;
  root = none;
  summary = none;
  indexed = false;
  global = false;
  occurred_at = none;
  source_session = none;
  host = none;
  episodic = false;
  tier = some Tier.core;
  skip_dedup = false;
  replace_ids = "b" ∷ [];
  user_directed = false;
  account_id = none;
  account_name = none;
}

node-IsApart : IsApart row_tables node
unfolding get_row linggen_memory.Tables.find_row new
node-IsApart k = elim (Bool-cases ("a" == k)) [
  | inl e ↦ inl (subst (λ j. get_row row_tables semantic j node ≡ none) ((eq_iff "a" k).0 e) refl)
  | inr e ↦ inr (rw e refl)
]

absent : (u : TableName) → get_row row_tables u "c" node ≡ none
unfolding get_row linggen_memory.Tables.find_row new
absent semantic = refl
absent episodic = refl

there : get_row row_tables episodic "a" node ≡ some tabs
unfolding get_row linggen_memory.Tables.find_row new
there = refl

voiced : tabs.origin ≡ user
unfolding new
voiced = refl

add-Remains_example :
    Remains row_tables "tabs" tabs episodic "a"
      (add row_tables (λ k. disk) (λ s. some []) (λ ms t. none) "c" 30 request node).1
add-Remains_example =
    Kept.add-Remains row_tables (λ k. disk) (λ s. some []) (λ ms t. none) "c" 30 request node refl
      node-IsApart absent tabs episodic "a" there voiced

-- A change of the tier, which moves the row.
abbrev promotion : UpdateRequest
promotion = record {
  id = "a";
  content = none;
  summary = none;
  clear_summary = false;
  indexed = none;
  type = none;
  tier = some Tier.semantic;
  origin = none;
  outcome = none;
  clear_outcome = false;
  scope_dir = none;
  clear_scope = false;
  global = false;
  host = none;
  clear_host = false;
  occurred_at = none;
  clear_occurred_at = false;
  episodic = none;
  user_directed = false;
  scope = AccountScope.owned;
}

update-Says_example :
    Says row_tables "tabs" "a" (update row_tables (λ k. disk) (λ s. some s) 40 promotion node).1
unfolding new
update-Says_example =
    Rewrites.update-Says row_tables (λ k. disk) (λ s. some s) 40 promotion node refl node-IsApart
      episodic "a" tabs there voiced
