-- ===== src/Toggl.antt =====
-- The hours that Toggl has, added up by day, person and project, and written to the Timer databases
-- (sync/sync_toggl_hours.py).
pub mod Durations
pub mod Aggregate
pub mod Reconcile
