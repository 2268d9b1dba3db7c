-- ===== src/Queue/Rollup.antt =====
-- queue.py: the state of a project and the counts of the queue, read from the rows.
pub mod Laws
use gb_automations.Base.{
  ℕ, ◌<◌, String, Bool, true, false, Option, none, some, List, ◌&&◌, ltb, any_of, count_if,
  if◌then◌else◌, same_text,
}
use gb_automations.Schema.{
  SyncTask, Status, is_pending, is_in_progress, is_done, is_failed, is_active,
}

pub data ProjectState : Type 0 where
  failed retrying active idle : ProjectState

unfoldable pub has_failed : String → SyncTask → Bool
has_failed p r = same_text r.project_page_id (some p) && is_failed r.status

unfoldable pub is_retrying : String → SyncTask → Bool
is_retrying p r = same_text r.project_page_id (some p) && (is_active r.status && ltb 1 r.attempts)

unfoldable pub is_owed : String → SyncTask → Bool
is_owed p r = same_text r.project_page_id (some p) && is_active r.status

unfoldable pub project_sync_state : String → List SyncTask → ProjectState
unfolding has_failed is_retrying is_owed
project_sync_state p rows =
    if any_of (has_failed p) rows
    then failed
    else if any_of (is_retrying p) rows
    then retrying
    else if any_of (is_owed p) rows
    then active
    else idle

pub record StatusCounts : Type 0 where
  pub pending : ℕ
  pub in_progress : ℕ
  pub done : ℕ
  pub failed : ℕ

-- GROUP BY status; a status with no row counts 0, as the callers' `.get(s, 0)` reads it
unfoldable pub status_counts : List SyncTask → StatusCounts
status_counts rows = record {
  pending = count_if (λ (r : SyncTask). is_pending r.status) rows;
  in_progress = count_if (λ (r : SyncTask). is_in_progress r.status) rows;
  done = count_if (λ (r : SyncTask). is_done r.status) rows;
  failed = count_if (λ (r : SyncTask). is_failed r.status) rows;
}
