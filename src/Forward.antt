-- ===== src/Forward.antt =====
-- Writes on a replica (src/replica/forward.rs). What the primary answers, to the write and to the
-- two rounds of replay and pull around it, is an argument, as is the local handler of the path. A
-- body that is not JSON has no arguments.
pub mod Queueing
use Prim.Native.String
use linggen_memory.Prelude.{
  ℕ, String, ◌==◌, Bool, true, false, not, ◌&&◌, ◌||◌, Option, none, some, List, [], ◌∷◌, ◌++◌, any,
  leb, or_else, if◌then◌else◌,
}
use linggen_memory.Types.{Instant}
use linggen_memory.Tables.{TableApi}
use linggen_memory.Store.{TableName, Io, Node}
use linggen_memory.Replica.{Role, replica, ReplicaFile, role, upstream}
use linggen_memory.Sync
use linggen_memory.Sync.{Answer, pull_all}
use linggen_memory.Outbox
use linggen_memory.Outbox.{Args, Queued, texts, replay}

abbrev pub writes : List String
writes =
    "/api/memory/add" ∷ "/api/memory/add_batch" ∷ "/api/memory/update" ∷ "/api/memory/delete"
    ∷ "/api/memory/forget" ∷ "/api/memory/restamp" ∷ "/api/memory/issue_add"
    ∷ "/api/memory/issue_resolve" ∷ "/api/memory/harvest_day" ∷ []

abbrev pub primary_only : List String
primary_only =
    "/api/memory/remember_day" ∷ "/api/memory/sweep" ∷ "/api/memory/dream_lease"
    ∷ "/api/schema/apply" ∷ []

abbrev pub has_path : List String → String → Bool
has_path paths path = any (λ p. p == path) paths

-- The fields of a reply's `data` that are read; an element of `facts` without a text for its id is
-- `none`.
pub record Body : Type 0 where
  pub action : Option String
  pub fact_id : Option String
  pub fact_ids : Option (List (Option String))
  pub other_fields : String

pub record Response : Type 0 where
  pub status : ℕ
  pub body : Body
  pub queued : Bool

abbrev pub is_success : Response → Bool
is_success r = leb 200 r.status && leb r.status 299

abbrev pub is_added : Option String → Bool
is_added none = false
is_added (some action) = action == "added"

abbrev pub one_id : Option String → List String
one_id none = []
one_id (some id) = id ∷ []

unfoldable pub created_ids : Body → List String
created_ids b = if is_added b.action then one_id b.fact_id ++ texts (or_else b.fact_ids []) else []

abbrev pub no_args : Args
no_args = record { replace_ids = none; id = none; other_fields = "null" }

abbrev pub refusal : ℕ → String → Response
refusal status error = record {
  status = status;
  body = record { action = none; fact_id = none; fact_ids = none; other_fields = error };
  queued = false;
}

pub data Sent : Type 0 where
  too_large : Sent
  json : Args → Sent
  not_json : Sent

-- What the primary answers in one round.
pub record Round : Type 0 where
  pub model : String
  pub turns : List Outbox.Upstream
  pub fetched : List (Instant × (ℕ → Answer))

pub record Network : Type 0 where
  pub before : Round
  pub posted : Option Response
  pub after : Round
  pub now : Instant
  pub saved : Bool

module _ (db : TableApi) where
  pub record ReplicaNode : Type 0 where
    pub node : Node db
    pub file : ReplicaFile
    pub queue : List Queued

module _ (db : TableApi) (io : TableName → String → Io) where
  unfoldable pub sync_once : Round → ReplicaNode db → ReplicaNode db
  sync_once w s =
      let (done, queue, node) = replay db io w.turns s.file s.queue s.node in
      let r : Sync.Replica db = record { node = node; file = s.file } in
      let r' = pull_all db io w.model w.fetched r in
      record { node = r'.node; file = r'.file; queue = queue }

  abbrev pub forward_on :
      Option (String × String) → Option Response → ReplicaNode db → Option Response × ReplicaNode db
  forward_on none posted s = (none, s)
  forward_on (some up) none s =
      (none, record s { file = record s.file { online = false; error = some "primary offline" } })
  forward_on (some up) (some r) s = (some (record r { queued = false }), s)

  unfoldable pub forward : Network → ReplicaNode db → Option Response × ReplicaNode db
  forward w s = forward_on (upstream s.file) w.posted s

  abbrev pub pull_after :
      Network → Option Response × ReplicaNode db → Option Response × ReplicaNode db
  pull_after w (none, s) = (none, s)
  pull_after w (some r, s) = (some r, if is_success r then sync_once w.after s else s)

  -- What is queued is replayed first.
  abbrev pub synced_first : Network → List Queued → ReplicaNode db → ReplicaNode db
  synced_first w [] s = s
  synced_first w (e ∷ q) s = sync_once w.before s

  abbrev pub forward_if : Network → List Queued → ReplicaNode db → Option Response × ReplicaNode db
  forward_if w [] s = pull_after w (forward w s)
  forward_if w (e ∷ q) s = (none, s)

  unfoldable pub forward_in_order : Network → ReplicaNode db → Option Response × ReplicaNode db
  unfolding sync_once forward
  forward_in_order w s = let s' = synced_first w s.queue s in forward_if w s'.queue s'

  -- The reply is marked also when the queue could not be saved.
  unfoldable pub queue_after_local :
      Network → String → Args → Response → ReplicaNode db → Response × ReplicaNode db
  queue_after_local w path args local s =
      let queue = Outbox.push path args (created_ids local.body) w.now s.file s.queue in
      if is_success local
      then (record local { queued = true }, if w.saved then record s { queue = queue } else s)
      else (local, s)

  abbrev pub run_local : (Node db → Response × Node db) → ReplicaNode db → Response × ReplicaNode db
  run_local next s = let (r, node) = next s.node in (r, record s { node = node })

  abbrev pub queue_on :
      Network
      → String
      → Args
      → (Node db → Response × Node db)
      → Option Response × ReplicaNode db
      → Response × ReplicaNode db
  queue_on w path args next (some answer, s) = (answer, s)
  queue_on w path args next (none, s) =
      let (local, s') = run_local next s in queue_after_local w path args local s'

  abbrev pub write_on :
      Network
      → String
      → Sent
      → (Node db → Response × Node db)
      → ReplicaNode db
      → Response × ReplicaNode db
  write_on w path too_large next s = (refusal 400 "request body too large", s)
  write_on w path (json args) next s = queue_on w path args next (forward_in_order w s)
  write_on w path not_json next s = queue_on w path no_args next (forward_in_order w s)

  abbrev pub is_replica_post : Bool → Role → Bool
  is_replica_post post replica = post
  is_replica_post post _ = false

  abbrev pub dreamed_on : ReplicaFile → String
  dreamed_on f =
      String.◌++◌ (String.◌++◌ "Memory is dreamed on the primary (" (or_else f.primary "")) ")"

  unfoldable pub replica_writes :
      Network
      → (post : Bool) → (path : String) → Sent
      → (Node db → Response × Node db)
      → ReplicaNode db
      → Response × ReplicaNode db
  unfolding forward_in_order queue_after_local
  replica_writes w post path sent next s =
      if not (is_replica_post post (role s.file))
      then run_local next s
      else if has_path primary_only path
      then (refusal 409 (dreamed_on s.file), s)
      else if not (has_path writes path)
      then run_local next s
      else write_on w path sent next s
