-- ===== src/Outbox.antt =====
-- Writes that a replica made while its primary was offline (src/replica/outbox.rs), and the route
-- that it reads rows back from (`rows` of src/http/sync.rs). What the primary answers while one
-- entry is replayed is an argument.
pub mod Replay
pub mod PrimaryWins
use Prim.Native.String
use linggen_memory.Prelude.{
  ℕ, ◌+◌, ◌%◌, ◌^◌, String, ◌==◌, Bool, true, false, not, ◌||◌, Option, none, some, List, [], ◌∷◌,
  ◌++◌, if◌then◌else◌, max, or_else, last?, keep, map, take, any, eqb, ltb,
}
use linggen_memory.Text.{trim, is_empty, split_comma}
use linggen_memory.Types.{Memory, Instant}
use linggen_memory.Tables.{TableApi}
use linggen_memory.Changes.{Op, Entry}
use linggen_memory.Store.{TableName, Io, Node}
use linggen_memory.Replica.{ReplicaFile, upstream}
use linggen_memory.Sync.{Located, bodies, apply_rows, delete_all, max_limit}

-- The arguments of a write, as far as the queue reads them: an element of `replace_ids` that is not
-- text is `none`.
pub record Args : Type 0 where
  pub replace_ids : Option (List (Option String))
  pub id : Option String
  pub other_fields : String

pub record Queued : Type 0 where
  pub seq : ℕ
  pub verb : String
  pub args : Args
  pub replica_id : String
  pub created_at : Instant
  pub local_ids : List String

abbrev pub next_of : Option Queued → ℕ
next_of none = 1
next_of (some e) = (e.seq + 1) % 2 ^ 64

-- The queue after a push whose save succeeds.
unfoldable pub push :
    String → Args → List String → Instant → ReplicaFile → List Queued → List Queued
push verb args local_ids now f q =
    let e : Queued = record {
      seq = next_of (last? q);
      verb = verb;
      args = args;
      replica_id = or_else f.device_id "";
      created_at = now;
      local_ids = local_ids;
    } in
    q ++ e ∷ []

abbrev pub texts : List (Option String) → List String
texts [] = []
texts (none ∷ vs) = texts vs
texts (some s ∷ vs) = s ∷ texts vs

abbrev pub is_by_id : String → Bool
is_by_id verb = verb == "/api/memory/update" || verb == "/api/memory/delete"

abbrev pub own_id : Bool → Option String → List String
own_id true (some id) = id ∷ []
own_id true none = []
own_id false id = []

-- Rows that a write would change on the primary.
unfoldable pub target_ids : String → Args → List String
target_ids verb args = texts (or_else args.replace_ids []) ++ own_id (is_by_id verb) args.id

-- The latest of a row's own clocks.
abbrev pub row_time : Memory → Instant
row_time m = max (or_else m.updated_at 0) (max (or_else m.expired_at 0) m.created_at)

-- `ids.join(",")`.
unfoldable pub joined_ids : List String → String
joined_ids [] = ""
joined_ids (id ∷ []) = id
joined_ids (id ∷ j ∷ ids) = String.◌++◌ (String.◌++◌ id ",") (joined_ids (j ∷ ids))

-- The rows route: the ids of the query, which stand in one text with commas between, without
-- blanks, at most so many.
abbrev pub asked_entry : String → Entry
asked_entry id = record { seq = 0; id = id; table = ""; op = Op.upsert }

unfoldable pub asked_entries : String → List Entry
unfolding split_comma
asked_entries text =
    map asked_entry
      (take max_limit (keep (λ id. not (is_empty id)) (map trim (split_comma "" text))))

pub data Posted : Type 0 where
  no_answer accepted : Posted
  refused : Option String → Posted

-- What the primary answers while an entry is replayed: the rows asked for by a text of ids (`none` is no answer or
-- one that does not parse), the write, and whether the review item is taken.
pub record Upstream : Type 0 where
  pub fetched : String → Option (List Located × List String)
  pub posted : Posted
  pub filed : Bool

abbrev pub fetch_rows : Upstream → List String → Option (List Located × List String)
fetch_rows up ids = up.fetched (joined_ids ids)

abbrev pub is_nil : {A : Type 0} → List A → Bool
is_nil [] = true
is_nil (x ∷ xs) = false

abbrev pub touched_on : Option (List Located × List String) → Instant → Option Bool
touched_on none since = none
touched_on (some (rows, tombstones)) since =
    some (not (is_nil tombstones) || any (λ (r : Located). ltb since (row_time r.1)) rows)

unfoldable pub changed_since : Upstream → List String → Instant → Option Bool
changed_since up ids since = if is_nil ids then some false else touched_on (fetch_rows up ids) since

module _ (db : TableApi) (io : TableName → String → Io) where
  abbrev pub restore_on : Option (List Located × List String) → Node db → Bool × Node db
  restore_on none n = (false, n)
  restore_on (some (rows, tombstones)) n = (true, apply_rows db io rows tombstones n)

  unfoldable pub restore : Upstream → List String → Node db → Bool × Node db
  restore up ids n = if is_nil ids then (true, n) else restore_on (fetch_rows up ids) n

  unfoldable pub settle_refused : Upstream → Queued → List String → Node db → Bool × Node db
  settle_refused up e targets n =
      if not up.filed then (false, n) else restore up targets (delete_all db io e.local_ids n)

  abbrev pub replay_posted : Posted → Upstream → Queued → List String → Node db → Bool × Node db
  replay_posted no_answer up e targets n = (false, n)
  replay_posted accepted up e targets n = (true, delete_all db io e.local_ids n)
  replay_posted (refused why) up e targets n = settle_refused up e targets n

  abbrev pub replay_on : Option Bool → Upstream → Queued → List String → Node db → Bool × Node db
  replay_on none up e targets n = (false, n)
  replay_on (some true) up e targets n = settle_refused up e targets n
  replay_on (some false) up e targets n = replay_posted up.posted up e targets n

  -- Whether the entry is settled, and the replica's rows then.
  unfoldable pub replay_one : Upstream → Queued → Node db → Bool × Node db
  unfolding settle_refused
  replay_one up e n =
      let targets = target_ids e.verb e.args in
      replay_on (changed_since up targets e.created_at) up e targets n

  -- One turn after another, each with what the primary answers in it. The first result says whether
  -- the queue came to its end.
  unfoldable pub replay_loop : List Upstream → List Queued → Node db → Bool × List Queued × Node db
  replay_loop ups [] n = (true, [], n)
  replay_loop [] (e ∷ q) n = (false, e ∷ q, n)
  replay_loop (up ∷ ups) (e ∷ q) n =
      let (ok, n') = replay_one up e n in
      let rest = replay_loop ups (keep (λ (x : Queued). not (eqb x.seq e.seq)) (e ∷ q)) n' in
      if ok then rest else (false, e ∷ q, n')

  unfoldable pub replay :
      List Upstream → ReplicaFile → List Queued → Node db → Bool × List Queued × Node db
  unfolding replay_loop
  replay ups f q n = elim (upstream f) [ none ↦ (true, q, n) | some up ↦ replay_loop ups q n ]
