-- ===== src/Tests/Replaying.antt =====
-- The properties of the outbox at a small queue.
use linggen_memory.Prelude.{String, refl, true, false, none, some, List, [], ◌∷◌}
use linggen_memory.Types.{new, fact, user}
use linggen_memory.Tables.{row_tables}
use linggen_memory.Changes.{open_log}
use linggen_memory.Store.{TableName, Io, Node}
use linggen_memory.Outbox
use linggen_memory.Outbox.{Args, Queued, Upstream, refused, push, replay_loop}
use linggen_memory.Outbox.PrimaryWins
use linggen_memory.Outbox.PrimaryWins.{answers_from}
use linggen_memory.Replica.{ReplicaFile, default, role}
use linggen_memory.Forward.{ReplicaNode, Round, Network, Response, json, replica_writes}
use linggen_memory.Forward.Queueing

abbrev disks : TableName → String → Io
disks w k = record { appended = true; rewritten = true }

-- The primary has row "a"; the replica has an older one, and row "l" of the write that is queued.
abbrev primary_node : Node row_tables
primary_node = record {
  semantic = new "a" 50 "spaces" fact user ∷ [];
  episodic = [];
  log = open_log none;
}

abbrev replica_node : Node row_tables
replica_node = record {
  semantic = new "a" 10 "tabs" fact user ∷ new "l" 20 "both" fact user ∷ [];
  episodic = [];
  log = open_log none;
}

abbrev replaces_a : Args
replaces_a = record { replace_ids = some (some "a" ∷ []); id = none; other_fields = "" }

abbrev one_queued : Queued
one_queued = record {
  seq = 1;
  verb = "/api/memory/add";
  args = replaces_a;
  replica_id = "";
  created_at = 20;
  local_ids = "l" ∷ [];
}

abbrev online : Upstream
online = record {
  fetched = answers_from row_tables disks primary_node;
  posted = refused none;
  filed = true;
}

abbrev linked : ReplicaFile
linked = record default { primary = some "10.0.0.1:9528"; token = some "cafe"; online = true }

abbrev replica_with : List Queued → ReplicaNode row_tables
replica_with q = record { node = replica_node; file = linked; queue = q }

abbrev quiet : Round
quiet = record { model = "m"; turns = []; fetched = [] }

-- The primary answers nothing.
abbrev cut_off : Network
cut_off = record { before = quiet; posted = none; after = quiet; now = 30; saved = true }

abbrev added : Response
added = record {
  status = 200;
  body = record { action = some "added"; fact_id = some "n"; fact_ids = none; other_fields = "" };
  queued = false;
}

abbrev add_locally : Node row_tables → Response × Node row_tables
add_locally n = (added, n)

replica_writes_lem_example :
    Queueing.IsEnded row_tables disks cut_off "/api/memory/add" replaces_a add_locally
      (Queueing.ahead row_tables disks cut_off (replica_with []))
      (replica_writes row_tables disks cut_off true "/api/memory/add"
        (json replaces_a)
        add_locally
        (replica_with []))
unfolding role
replica_writes_lem_example =
    Queueing.replica_writes_lem row_tables disks cut_off "/api/memory/add" replaces_a add_locally
      (replica_with []) refl refl
