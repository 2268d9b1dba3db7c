-- ===== src/Worker/Settles.antt =====
-- Every handler settles the task that it was given.
pub mod Rules
pub mod Steps
pub mod Error
pub mod Handlers
