-- ===== src/Outbox/PrimaryWins.antt =====
-- The primary wins: what a refused write leaves on the replica.
use linggen_memory.Prelude.{String, ◌==◌, Bool, Option, none, some, List, if◌then◌else◌, any}
use linggen_memory.Tables.{TableApi}
use linggen_memory.Changes.Latest.{occurs}
use linggen_memory.Store.{TableName, Io, Node}
use linggen_memory.Sync.{Located, current, bodies}
use linggen_memory.Outbox.{Upstream, joined_ids, asked_entries}

abbrev pub is_in : List String → String → Bool
is_in ids k = any (λ j. j == k) ids

module _ (db : TableApi) (io : TableName → String → Io) where
  -- The rows of the primary `p`, as the rows route answers.
  abbrev pub answers_from : Node db → String → Option (List Located × List String)
  answers_from p text = some (bodies db p (asked_entries text))

  module _ (p : Node db) (up : Upstream) (k : String) where
    -- What the primary has for a row that was asked for, and the replica's own otherwise.
    abbrev pub restored : List String → Node db → Option Located
    restored targets n =
        if occurs k (asked_entries (joined_ids targets)) then current db k p else current db k n

    abbrev pub dropped : List String → Node db → Option Located
    dropped local_ids n = if is_in local_ids k then none else current db k n
