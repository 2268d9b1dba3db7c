-- ===== src/Queue.antt =====
-- queue.py: the durable work queue over the `sync_tasks` table.
pub mod Enqueue
pub mod Request
pub mod Owed
pub mod Claim
pub mod Outcome
pub mod Recovery
pub mod Rollup
pub mod Threads
