-- ===== src/Worker/System.antt =====
-- Several consumers, the webhooks and the operator on one table, one transaction at a time. A claim
-- passes over the rows that another open transaction has locked. A consumer holds what it claimed
-- until it records the outcome.
pub mod Exclusive
pub mod Mutual
use gb_automations.Base.{
  ℕ, ◌≤◌, String, Bool, Option, none, some, List, [], ◌∷◌, ◌≡◌, ◌≢◌, In, ok, Tx, ◌==◌, not, keep_if,
}
use gb_automations.Schema.{SyncTask, Db, live_index, project_column}
use gb_automations.Queue.Request.{Request, enqueue}
use gb_automations.Queue.Claim.{claim_one}
use gb_automations.Queue.Outcome.{mark_done, mark_failed}
use gb_automations.Queue.Recovery.{requeue_failed, set_task_project}
use gb_automations.Worker.World.{Claimed, flatten, max_attempts, base_backoff_seconds}

pub record System : Type 0 where
  pub db : Db
  pub now : ℕ
  pub held : List Claimed

abbrev pub release : Claimed → List Claimed → List Claimed
release c held = keep_if (λ (d : Claimed). not (d.id == c.id)) held

pub data Step (s : System) (t : System) : Type 0 where
  claims :
      (locked : ℕ → Bool) (task : SyncTask) (db' : Db)
      → claim_one locked s.now s.db ≡ ok (some task, db')
      → t ≡ record s { db = db'; held = flatten task ∷ s.held }
      → Step s t
  enqueues :
      (q : Request) (n : ℕ) (db' : Db)
      → enqueue s.now q s.db ≡ ok (n, db')
      → t ≡ record s { db = db' }
      → Step s t
  resolves :
      (c : Claimed) (project : String) (n : ℕ) (db' : Db)
      → In c s.held
      → live_index c.task_type ≢ some project_column
      → set_task_project s.now c.id project s.db ≡ ok (n, db')
      → t ≡ record s { db = db' }
      → Step s t
  succeeds :
      (c : Claimed) (n : ℕ) (db' : Db)
      → In c s.held
      → mark_done s.now c.id s.db ≡ ok (n, db')
      → t ≡ record s { db = db'; held = release c s.held }
      → Step s t
  fails :
      (c : Claimed) (error : String) (terminal : Bool) (db' : Db)
      → In c s.held
      → mark_failed s.now c.id c.attempts error max_attempts base_backoff_seconds s.db
        ≡ ok (terminal, db')
      → t ≡ record s { db = db'; held = release c s.held }
      → Step s t
  retries :
      (thread_id : Option String) (n : ℕ) (db' : Db)
      → requeue_failed s.now thread_id s.db ≡ ok (n, db')
      → t ≡ record s { db = db' }
      → Step s t
  ticks : (later : ℕ) → s.now ≤ later → t ≡ record s { now = later } → Step s t

pub data Reach (s : System) : System → Type 0 where
  start : Reach s s
  next : {t u : System} → Reach s t → Step t u → Reach s u
