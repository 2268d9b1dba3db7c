-- ===== src/Worker/Consumer.antt =====
-- One round of a consumer's loop (jobs/queue_worker.py): claim, number the task, process it. A round
-- that finds nothing closes the batch; what it waits for, a wake or the poll, is not modelled.
pub mod Laws
use gb_automations.Base.{ℕ, ◌+◌, String, ◌<>◌, Bool, Option, none, some, ok, decimal}
use gb_automations.Queue.Rollup.{status_counts}
use gb_automations.Mirror.{Settings}
use gb_automations.Worker.Engines.{Engines}
use gb_automations.Worker.Exec.{Exec, pure, ◌>>=◌, ◌>>◌}
use gb_automations.Worker.World.{World, Claimed, claim}
use gb_automations.Worker.ThreadTask.{process}

-- try: … except Exception: the exception is logged, and the state stays as it was left
unfoldable pub swallow : Exec World (Unit {0}) → Exec World (Unit {0})
swallow m w = (ok tt, (m w).1)

unfoldable pub pending_now : Exec World ℕ
pending_now w = (ok (status_counts w.db.rows).pending, w)

-- "N/M"
unfoldable pub progress_text : ℕ → ℕ → String
progress_text position remaining = decimal position <> "/" <> decimal (position + remaining)

module _ (settings : Settings) (engines : Engines) where
  unfoldable pub work_on : ℕ → Option Claimed → Exec World ℕ
  work_on batch_pos none = pure 0
  work_on batch_pos (some claimed) = do
    remaining ← pending_now
    let position = batch_pos + 1
    swallow (process settings engines (progress_text position remaining) claimed)
    pure position

  -- `batch_pos` goes in and comes out.
  unfoldable pub consumer_round : (ℕ → Bool) → ℕ → Exec World ℕ
  consumer_round locked batch_pos = do claimed ← claim locked; work_on batch_pos claimed
