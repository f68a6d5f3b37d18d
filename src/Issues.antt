-- ===== src/Issues.antt =====
-- The review queue (src/http/issues.rs). The file is the list that it parses to, `none` when it is
-- missing or does not parse; whether a save succeeds is an argument, as are the new id and the clock.
pub mod Twins
use linggen_memory.Prelude.{
  ℕ, String, ◌==◌, Bool, true, false, not, ◌&&◌, ◌||◌, Option, none, some, List, [], ◌∷◌, ◌++◌, any,
  keep, find, take, length, or_else, sort_by, if◌then◌else◌, map,
}
use linggen_memory.Text.{trim, is_empty}
use linggen_memory.Text.Order.{text_le}
use linggen_memory.Types.{Instant}

abbrev pub kinds : List String
kinds = "chain" ∷ "stale-status" ∷ "contradiction" ∷ "subject" ∷ "replica-conflict" ∷ []

abbrev pub outcomes : List String
outcomes = "resolved" ∷ "dismissed" ∷ []

pub record IssueRecord : Type 0 where
  pub id : String
  pub kind : String
  pub row_ids : List String
  pub note : String
  pub created_at : Instant
  pub status : String
  pub resolved_at : Option Instant
  pub resolution : Option String

abbrev pub IssuesState : Type 0
IssuesState = List IssueRecord

abbrev pub load : Option IssuesState → IssuesState
load file = or_else file []

abbrev pub is_open : IssueRecord → Bool
is_open i = i.status == "open"

unfoldable pub open_count : Option IssuesState → ℕ
open_count file = length (keep is_open (load file))

abbrev rows_of : IssuesState → List String
rows_of [] = []
rows_of (i ∷ is) = i.row_ids ++ rows_of is

abbrev pub issued_row_ids : Option IssuesState → List String
issued_row_ids file = rows_of (load file)

abbrev pub subject_ruled_ids : Option IssuesState → List String
subject_ruled_ids file = rows_of (keep (λ (i : IssueRecord). i.kind == "subject") (load file))

pub data IssueReply : Type 0 where
  listed : (open_count : ℕ) → List IssueRecord → IssueReply
  added : IssueRecord → (deduped : Bool) → IssueReply
  closed : IssueRecord → (already_closed : Bool) → IssueReply
  bad_request internal : IssueReply

abbrev pub is_one_of : List String → String → Bool
is_one_of names s = any (λ n. n == s) names

abbrev is_wanted : String → IssueRecord → Bool
is_wanted want i = want == "all" || i.status == want

unfoldable pub issues : Option String → Option ℕ → Option IssuesState → IssueReply
unfolding open_count
issues status limit file =
    let want = or_else status "open" in
    if is_one_of ("open" ∷ "resolved" ∷ "dismissed" ∷ "all" ∷ []) want
    then listed (open_count file) (take (or_else limit 50) (keep (is_wanted want) (load file)))
    else bad_request

abbrev pub texts_eq : List String → List String → Bool
texts_eq [] [] = true
texts_eq [] (t ∷ ts) = false
texts_eq (s ∷ ss) [] = false
texts_eq (s ∷ ss) (t ∷ ts) = (s == t) && texts_eq ss ts

abbrev pub sorted : List String → List String
sorted rows = sort_by text_le rows

abbrev pub is_same : String → List String → IssueRecord → Bool
is_same kind rows i = is_open i && (i.kind == kind) && texts_eq (sorted i.row_ids) rows

abbrev pub new_issue : String → String → List String → String → Instant → IssueRecord
new_issue id kind row_ids note now = record {
  id = id;
  kind = kind;
  row_ids = row_ids;
  note = note;
  created_at = now;
  status = "open";
  resolved_at = none;
  resolution = none;
}

abbrev pub saved_as :
    Bool → IssueReply → IssuesState → Option IssuesState → IssueReply × Option IssuesState
saved_as true reply all file = (reply, some all)
saved_as false reply all file = (internal, file)

abbrev pub add_on :
    Option IssueRecord → Bool → IssueRecord → Option IssuesState → IssueReply × Option IssuesState
add_on (some existing) saved r file = (added existing true, file)
add_on none saved r file = saved_as saved (added r false) (load file ++ r ∷ []) file

unfoldable pub issue_add :
    Bool
    → (id : String) → Instant
    → (kind : String) → List String
    → (note : String) → Option IssuesState
    → IssueReply × Option IssuesState
unfolding trim
issue_add saved id now kind row_ids note file =
    if not (is_one_of kinds (trim kind))
    then (bad_request, file)
    else if is_empty (trim note)
    then (bad_request, file)
    else add_on (find (is_same (trim kind) (sorted row_ids)) (load file)) saved
        (new_issue id (trim kind) row_ids (trim note) now) file

abbrev pub resolution_of : Option String → Option String → Option String
resolution_of none old = old
resolution_of (some text) old = if is_empty (trim text) then old else some (trim text)

abbrev pub closed_as : String → Option String → Instant → IssueRecord → IssueRecord
closed_as outcome why now i = record i {
  status = outcome;
  resolved_at = some now;
  resolution = resolution_of why i.resolution;
}

-- The first with the id is changed in its place.
abbrev pub change_first : String → (IssueRecord → IssueRecord) → IssuesState → IssuesState
change_first id f [] = []
change_first id f (i ∷ is) =
    let rest = change_first id f is in if i.id == id then f i ∷ is else i ∷ rest

abbrev pub resolve_on :
    Option IssueRecord
    → Bool
    → String
    → Option String
    → Instant
    → Option IssuesState
    → IssueReply × Option IssuesState
resolve_on none saved outcome why now file = (bad_request, file)
resolve_on (some item) saved outcome why now file =
    if is_open item
    then saved_as saved (closed (closed_as outcome why now item) false)
        (change_first item.id (closed_as outcome why now) (load file)) file
    else (closed item true, file)

unfoldable pub issue_resolve :
    Bool
    → Instant
    → (id outcome : String) → Option String
    → Option IssuesState
    → IssueReply × Option IssuesState
issue_resolve saved now id outcome why file =
    if is_one_of outcomes (trim outcome)
    then resolve_on (find (λ (i : IssueRecord). i.id == id) (load file)) saved (trim outcome) why
        now file
    else (bad_request, file)
