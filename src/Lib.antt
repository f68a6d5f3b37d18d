-- ===== src/Lib.antt =====
-- The memory daemon: a store of rows in two tables, a change log over them, and replicas that
-- follow a primary through that log.
--
-- Scope (src/memory/scope.rs) models where a row belongs: paths, the session's root and the scopes
-- a session sees. Paths and Text model the parts of std::path and str that it uses. Types
-- (src/memory/types.rs) is the row and its vocabularies. Tables is the interface of the
-- third-party database, with an instance on lists. Store (src/memory/store.rs,
-- src/daemon/serve.rs) holds the two tables and the log: its `upsert` and `delete` write a table
-- and then record the id in the log, as the functions of those names do; Store/Edits is what is
-- built on them: patches, the merging insert and archiving; Store/Sweeps is the bulk delete and
-- the eviction. Changes (src/memory/changes.rs) is the log: ChangeLog is the struct with its
-- `Inner`, `record_ids` is `record`, `open_log` is `open`; a LogFile is what the path holds, a torn last line
-- included. Replica (src/replica/state.rs, link.rs,
-- mod.rs) is a replica's state file and every change of it. Sync is the primary's answer
-- (src/http/sync.rs) and the replica's pull (src/replica/pull.rs); Sync/Interleave runs both as
-- one system of steps, Sync/Inserts and Sync/Sweeps are the steps of the primary that take
-- many rows.
--
-- Outbox (src/replica/outbox.rs) is the queue of writes made while the primary was offline, and
-- its replay. Forward (src/replica/forward.rs) is the middleware before it: which writes of a
-- replica are refused, forwarded or queued; `sync_once` (src/replica/mod.rs) runs Outbox and then
-- Sync. Lease (src/http/lease.rs) is the dream lock, Local (src/http/local.rs) the check that a
-- caller is this machine, Connect (src/http/connect/broker.rs, devices.rs) the requests of
-- machines that want to follow this one and the files that a decision lands in. Gate
-- (src/http/gate.rs, presence.rs) is who is let in from other machines; Connect/Routes
-- (src/http/connect/mod.rs) puts the gate before the handlers, and its `lan_gate` is one call of
-- the daemon. Store/Filters and Store/Queries (src/memory/store.rs) are the filters as tests on
-- rows, and the queries and bulk operations that take one. Hybrid (src/memory/hybrid.rs) ranks by
-- cosine and keywords, Recall (src/memory/recall.rs) searches both tables. Session
-- (src/http/session.rs) is what a new session is told; Scope/Naming the names of scopes that it
-- prints. Text/Words and Text/Order are more of std::str. Issues (src/http/issues.rs) is the
-- review queue, Clusters (src/http/chains.rs) the subject clusters of the condense stage, Chains
-- (the same file) its chains of citations, found by union-find, and its marked rows. Days
-- (src/http/days.rs) is the calendar of the dream: the rollup, the stamps of a day and the forget
-- pass. Writes (src/http/memory.rs) is the handlers that add, change and delete rows, with the
-- guard of the user's voice, Listing (the same file) those that list, count and get. Backups
-- (src/memory/backups.rs) is what a prune removes, Hash (src/hash.rs) the SHA-256 hasher, Config
-- (src/http/config.rs, network.rs) the settings and how the daemon listens, Schema
-- (src/memory/schema_version.rs) the layout version that decides whether a store opens.
--
-- A page is read at one moment: the primary is not written between the log and the rows of an
-- answer.
--
-- Numbers: sequence numbers and cursors are u64 and wrap; theorems that need it say that the next
-- number stays below 2 ^ 64. Instants are counts of microseconds. Floats are bit patterns; their
-- arithmetic, the character tables of Unicode, the LIKE of the database and the parsers of dates
-- are parameters. Fuel: a loop that drops a component of a path per round runs on the length of
-- the path. The pull loop runs over the list of the answers that it is given; a list with one
-- answer more than there are changes to come is enough. The search for a citation has one round
-- more than there are characters. The union-find has as many rounds as edges: joining two trees
-- makes a way to the root one step longer at most.
--
-- Not modelled: the network, the file system but for what a write or a probe answers, JSON, the
-- embedding model, the old layout of the tables and its migration, the search handlers of
-- src/http/memory.rs, the command line, and the HTTP handlers not named above.
mod Prelude
pub mod Text
pub mod Paths
pub mod Scope
pub mod Types
pub mod Tables
pub mod Store
pub mod Changes
pub mod Replica
pub mod Sync
pub mod Lease
pub mod Local
pub mod Connect
pub mod Outbox
pub mod Forward
pub mod Backups
pub mod Issues
pub mod Clusters
pub mod Days
pub mod Writes
pub mod Listing
pub mod Chains
pub mod Config
pub mod Schema
mod Tests
pub mod Hash
pub mod Session
pub mod Hybrid
pub mod Recall
pub mod Gate
