-- ===== src/Worker/World.antt =====
-- The state that the worker's coroutines share, and their steps on it.
use gb_automations.Base.{
  ℕ, ◌+◌, String, Bool, true, false, Option, none, some, List, [], ◌∷◌, ◌++◌, ok, err, Tx, present,
  if◌then◌else◌,
}
use gb_automations.Schema.{SyncTask, TaskType, Db}
use gb_automations.Queue.Request.{Request, enqueue}
use gb_automations.Queue.Claim.{claim_one}
use gb_automations.Queue.Outcome.{mark_done, mark_failed}
use gb_automations.Queue.Recovery.{set_task_project}
use gb_automations.Mirror
use gb_automations.Mirror.{Settings, Patch}
use gb_automations.Worker.Engines.{Engines, Run, Attempt, raised, value_error}
use gb_automations.Worker.Exec.{Exec, pure, ◌>>=◌, ◌>>◌}

-- The table, the requests made to Notion so far, and the clock.
pub record World : Type 0 where
  pub db : Db
  pub mirror : List Patch
  pub now : ℕ

-- async with SessionLocal(): a transaction that commits, or is rolled back and raises
unfoldable pub transact {ℓ} : {A : Type ℓ} → (ℕ → Tx Db A) → Exec World A
transact m w = elim (m w.now w.db) [
  | ok (a, db') ↦ (ok a, record w { db = db' })
  | err e ↦ (err e, w)
]

unfoldable pub to_mirror : (List SyncTask → List Patch) → Exec World (Unit {0})
to_mirror patches w = (ok tt, record w { mirror = w.mirror ++ patches w.db.rows })

-- The enqueue calls of a run, each a transaction of its own. One that raises leaves the table as
-- it was, and the run's own result tells of it.
unfoldable pub enqueue_all : ℕ → List Request → Db → Db
enqueue_all now [] db = db
enqueue_all now (q ∷ requests) db =
    enqueue_all now requests (elim (enqueue now q db) [ ok (n, db') ↦ db' | err e ↦ db ])

-- await engine(…) under `except Exception`
unfoldable pub await : {A : Type 0} → Run A → Exec World (Attempt A)
await run w = (
  ok run.attempt,
  record w { db = enqueue_all w.now run.requests w.db; now = w.now + run.seconds },
)

-- if not page_id: raise ValueError(text), in front of a run
unfoldable pub require_page : {A : Type 0} → Option String → String → (String → Run A) → Run A
require_page none text engine = record {
  attempt = raised (value_error text);
  requests = [];
  seconds = 0;
}
require_page (some page) text engine =
    if present (some page)
    then engine page
    else record { attempt = raised (value_error text); requests = []; seconds = 0 }

-- _Claimed
pub record Claimed : Type 0 where
  pub id : ℕ
  pub task_type : TaskType
  pub user_email : String
  pub gmail_thread_id : String
  pub project_page_id : Option String
  pub attempts : ℕ
  pub rebuild : Bool

abbrev pub max_attempts : ℕ
max_attempts = 5

abbrev pub base_backoff_seconds : ℕ
base_backoff_seconds = 30

unfoldable pub flatten : SyncTask → Claimed
flatten t = record {
  id = t.id;
  task_type = t.task_type;
  user_email = t.user_email;
  gmail_thread_id = t.gmail_thread_id;
  project_page_id = t.project_page_id;
  attempts = t.attempts;
  rebuild = t.rebuild;
}

unfoldable pub flattened : Option SyncTask → Option Claimed
flattened none = none
flattened (some t) = some (flatten t)

-- `locked` are the rows that other open transactions hold.
unfoldable pub claim : (ℕ → Bool) → Exec World (Option Claimed)
claim locked = do task ← transact (claim_one locked); pure (flattened task)

-- True if the task succeeded.
unfoldable pub record_outcome : ℕ → ℕ → Option String → Exec World Bool
record_outcome task_id attempts none = do transact (λ now. mark_done now task_id); pure true
record_outcome task_id attempts (some error) = do
  transact (λ now. mark_failed now task_id attempts error max_attempts base_backoff_seconds)
  pure false

module _ (settings : Settings) where
  unfoldable pub refresh_dot : Option String → String → String → Exec World (Unit {0})
  refresh_dot project progress subject =
      to_mirror
        (λ rows. Mirror.refresh_project_dot settings rows project (some progress) (some subject))

  unfoldable pub dot_in_progress : Option String → String → String → Exec World (Unit {0})
  dot_in_progress project progress subject =
      if present project then refresh_dot project progress subject else pure tt

module _ (engines : Engines) where
  unfoldable pub resolve_project_from_leveranse : Option String → Option String
  resolve_project_from_leveranse none = none
  resolve_project_from_leveranse (some page) =
      if present (some page) then engines.leveranse_project page else none

-- if project_page_id: await set_task_project(task_id, project_page_id)
unfoldable pub persist_project : ℕ → Option String → Exec World (Unit {0})
persist_project task_id none = pure tt
persist_project task_id (some project) =
    if present (some project)
    then (do transact (λ now. set_task_project now task_id project); pure tt)
    else pure tt
