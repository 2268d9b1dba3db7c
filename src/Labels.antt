-- ===== src/Labels.antt =====
-- The Gmail labels of the projects: their paths, and their state in each mailbox.
pub mod Path
pub mod Mailbox
pub mod Project
