-- ===== src/Bridge.antt =====
-- The engines that keep a state of Notion and one of Frame.io in step.
pub mod FileStatus
pub mod Completed
