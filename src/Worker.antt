-- ===== src/Worker.antt =====
-- jobs/queue_worker.py: the consumers that drain the queue.
pub mod Exec
pub mod Engines
pub mod World
pub mod Enqueued
pub mod ProjectTasks
pub mod PageTasks
pub mod ThreadTask
pub mod Settles
pub mod Consumer
pub mod System
