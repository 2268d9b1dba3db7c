-- ===== src/Webhooks.antt =====
-- The receivers of routes/webhooks.py, by what they put on the queue.
pub mod Digest
pub mod Gmail
pub mod Notion
pub mod Frame
