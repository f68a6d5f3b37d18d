-- ===== src/Sync.antt =====
-- The primary's answer to a pull (src/http/sync.rs), and a replica's pull (src/replica/pull.rs).
-- The day records and the review queue, which a page mirrors whole, are left out.
pub mod Apply
pub mod Pending
pub mod Sweeps
pub mod Follows
pub mod Inserts
pub mod Interleave
pub mod Converge
use linggen_memory.Prelude.{
  ℕ, String, ◌==◌, Bool, true, false, Option, none, some, List, [], ◌∷◌, if◌then◌else◌, min, max,
  or_else,
}
use Prim.Native.String
use linggen_memory.Types.{Memory, Instant}
use linggen_memory.Tables.{TableApi}
use linggen_memory.Changes.{Entry, since}
use linggen_memory.Store
use linggen_memory.Store.{TableName, semantic, episodic, other, Io, Node, upsert, delete}
use linggen_memory.Replica.{ReplicaFile, upstream}

abbrev pub default_limit : ℕ
default_limit = 200

abbrev pub max_limit : ℕ
max_limit = 1000

abbrev pub page_size : ℕ
page_size = 500

abbrev pub Located : Type 0
Located = TableName × Memory

pub record Page : Type 0 where
  pub model : String
  pub next : ℕ
  pub more : Bool
  pub rows : List Located
  pub tombstones : List String

-- What a fetch gives: no answer, an answer that is an error, or a page.
pub data Answer : Type 0 where
  offline : Answer
  failed : String → Answer
  answered : Page → Answer

abbrev pub differs : String → String → String
differs theirs ours =
    String.◌++◌ (String.◌++◌ (String.◌++◌ "embedding model differs: primary " theirs) ", here ")
      ours

module _ (db : TableApi) where
  open db use {get}

  abbrev pub located : Option Memory → Option Memory → Option Located
  located (some m) e = some (semantic, m)
  located none (some m) = some (episodic, m)
  located none none = none

  unfoldable pub current : String → Node db → Option Located
  current k n = located (get n.semantic k) (get n.episodic k)

  abbrev pub with_body :
      Option Located → String → List Located × List String → List Located × List String
  with_body none id (rows, tombstones) = (rows, id ∷ tombstones)
  with_body (some r) id (rows, tombstones) = (r ∷ rows, tombstones)

  unfoldable pub bodies : Node db → List Entry → List Located × List String
  bodies n [] = ([], [])
  bodies n (e ∷ es) = with_body (current e.id n) e.id (bodies n es)

  unfoldable pub changes : String → Node db → ℕ → Option ℕ → Page
  unfolding bodies
  changes model n cursor limit =
      let (entries, next, more) =
        since n.log cursor (min max_limit (max 1 (or_else limit default_limit))) in
      let (rows, tombstones) = bodies n entries in
      record { model = model; next = next; more = more; rows = rows; tombstones = tombstones }

  -- The replica's machine and its state file.
  pub record Replica : Type 0 where
    pub node : Node db
    pub file : ReplicaFile

  -- `io` says of each write of a page whether it reaches the log's file.
  module _ (io : TableName → String → Io) where
    unfoldable pub put : Located → Node db → Node db
    put (w, m) n = (delete db (io (other w) m.id) (other w) m.id (upsert db (io w m.id) w m n)).0

    unfoldable pub put_all : List Located → Node db → Node db
    put_all [] n = n
    put_all (r ∷ rs) n = put_all rs (put r n)

    unfoldable pub delete_both : String → Node db → Node db
    delete_both id n =
        (delete db (io episodic id) episodic id (delete db (io semantic id) semantic id n).0).0

    unfoldable pub delete_all : List String → Node db → Node db
    delete_all [] n = n
    delete_all (id ∷ ids) n = delete_all ids (delete_both id n)

    unfoldable pub apply_rows : List Located → List String → Node db → Node db
    unfolding put_all delete_all
    apply_rows rows tombstones n = delete_all tombstones (put_all rows n)

    -- One turn of the loop in `pull_all`, and whether the loop goes on.
    unfoldable pub pull_page : String → Instant → Answer → Replica → Replica × Bool
    unfolding apply_rows
    pull_page model now offline r = (
      record r { file = record r.file { online = false; error = some "primary offline" } },
      false,
    )
    pull_page model now (failed why) r =
        (record r { file = record r.file { online = true; error = some why } }, false)
    pull_page model now (answered page) r =
        if page.model == model
        then (
          record r {
            node = apply_rows page.rows page.tombstones r.node;
            file = record r.file {
              cursor = page.next;
              last_sync = some now;
              online = true;
              error = none;
            };
          },
          page.more,
        )
        else (
          record r {
            file = record r.file { online = true; error = some (differs page.model model) };
          },
          false,
        )

    abbrev pub go_on : (Replica → Replica) → Replica × Bool → Replica
    go_on rest (r, true) = rest r
    go_on rest (r, false) = r

    -- The loop, over what each fetch answers at the cursor that it is given.
    unfoldable pub pull_loop : String → List (Instant × (ℕ → Answer)) → Replica → Replica
    pull_loop model [] r = r
    pull_loop model ((now, fetch) ∷ fs) r =
        go_on (pull_loop model fs) (pull_page model now (fetch r.file.cursor) r)

    unfoldable pub pull_all : String → List (Instant × (ℕ → Answer)) → Replica → Replica
    unfolding pull_loop pull_page
    pull_all model fs r = elim (upstream r.file) [ none ↦ r | some up ↦ pull_loop model fs r ]
