-- ===== src/Tests.antt =====
-- The properties at concrete inputs.
mod Logs
mod Replaying
mod Editing
mod Connecting
mod Scopes
mod Syncing
mod Hashing
mod Querying
mod Admitting
mod Keeping
mod Reviewing
mod Clustering
mod Setting
mod Opening
mod Dreaming
mod Writing
mod Chaining
