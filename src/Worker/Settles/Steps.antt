-- ===== src/Worker/Settles/Steps.antt =====
-- The steps that the handlers are made of, for a task in flight.
use gb_automations.Base.{
  ℕ, ◌+◌, String, true, false, Option, none, some, List, [], ◌∷◌, ◌++◌, ◌≡◌, ◌≢◌, refl, arith, Tx,
  ok, leb, Bool-cases, inl, inr, take_chars, present, not, ◌&&◌,
}
use gb_automations.Schema.{
  SyncTask, Db, pending, in_progress, done, failed, live_index, project_column, touch,
}
use gb_automations.Schema.Valid.{IsValid, inserted}
use gb_automations.Queue.Request.{Request, enqueue, wanted, row}
use gb_automations.Queue.Owed.{owed, enqueue_lem, enqueue-IsValid}
use gb_automations.Queue.Outcome.{find_task, backoff, finished, mark_done, mark_failed}
use gb_automations.Queue.Outcome.Laws.{mark_done_lem, mark_failed_lem, settled}
use gb_automations.Queue.Recovery.Laws.{set_task_project_lem}
use gb_automations.Queue.Recovery.{set_task_project}
use gb_automations.Mirror.{Patch}
use gb_automations.Worker.Exec.{Exec, ◌>>=◌}
use gb_automations.Worker.Engines.{Run, Attempt}
use gb_automations.Worker.World.{
  World, Claimed, transact, to_mirror, enqueue_all, await, record_outcome, persist_project,
  max_attempts, base_backoff_seconds,
}
use gb_automations.Worker.Settles.Rules.{Reaches, Reaches-bind, Reaches-pure}

-- The claimed task's row is in progress in a well-formed table.
pub record InFlight (c : Claimed) (db : Db) : Type 0 where
  pub valid : IsValid db
  pub row : SyncTask
  pub found : find_task c.id db.rows ≡ some row
  pub typed : row.task_type ≡ c.task_type
  pub busy : row.status ≡ in_progress

-- The row that an outcome leaves: done with no error; or failed for good from the fifth attempt
-- on; or pending again, due after the delay. Either failure keeps 2000 characters of its error.
abbrev pub Verdict : ℕ → ℕ → Option String → SyncTask → Type 0
Verdict now attempts none r = (r.status ≡ done) × (r.last_error ≡ none)
Verdict now attempts (some error) r =
    (r.last_error ≡ some (take_chars 2000 error))
    × (leb max_attempts attempts ≡ true → r.status ≡ failed)
    × (leb max_attempts attempts ≡ false
        → (r.status ≡ pending) × (r.next_attempt_at ≡ now + backoff base_backoff_seconds attempts))

pub record Settled (c : Claimed) (error : Option String) (db : Db) (now : ℕ) : Type 0 where
  pub valid : IsValid db
  pub row : SyncTask
  pub found : find_task c.id db.rows ≡ some row
  pub verdict : Verdict now c.attempts error row

find_task-append :
    (i : ℕ) (new t : SyncTask) (rows : List SyncTask)
    → find_task i rows ≡ some t
    → find_task i (rows ++ new ∷ []) ≡ some t
unfolding find_task
find_task-append i new t [] h = cc
find_task-append i new t (r ∷ rows) h = ground (arith, find_task-append i new t rows)

module _ (c : Claimed) where
  pub enqueue-InFlight :
      (now : ℕ) (q : Request) (db db' : Db) {n : ℕ}
      → InFlight c db
      → enqueue now q db ≡ ok (n, db')
      → InFlight c db'
  enqueue-InFlight now q db db' h e = record {
    valid = enqueue-IsValid now q db h.valid e;
    row = h.row;
    found = ground (
      arith,
      enqueue_lem now q db,
      h.found,
      find_task-append c.id (record (row now q) { id = db.next_id }) h.row db.rows,
    );
    typed = h.typed;
    busy = h.busy;
  }

  enqueue_all-InFlight :
      (now : ℕ) (requests : List Request) (db : Db)
      → InFlight c db
      → InFlight c (enqueue_all now requests db)
  unfolding enqueue_all
  enqueue_all-InFlight now [] db h = h
  enqueue_all-InFlight now (q ∷ requests) db h =
      elim (Bool-cases (wanted q && not (owed q db.rows))) [
        | inl e ↦
            rw (enqueue_lem now q db, e)
              (enqueue_all-InFlight now requests _ (
                enqueue-InFlight now q db (inserted (row now q) db) {n = 1} h
                  (rw (enqueue_lem now q db, e) refl)))
        | inr e ↦ rw (enqueue_lem now q db, e) (enqueue_all-InFlight now requests db h)
      ]

  -- An engine's run keeps the task in flight, and hands its outcome on.
  pub Reaches-await :
      {A B : Type 0} (run : Run A) (f : Attempt A → Exec World B) {R : B → World → Type 0}
      → Reaches (λ w. InFlight c w.db) (f run.attempt) R
      → Reaches (λ w. InFlight c w.db) (await run >>= f) R
  unfolding await ◌>>=◌
  Reaches-await run f h = record {
    at = λ w p. h.at _ (enqueue_all-InFlight w.now run.requests w.db p);
  }

-- A request to Notion leaves the table and the clock.
pub Reaches-to_mirror :
    (P : Db → ℕ → Type 0) (patches : List SyncTask → List Patch)
    → Reaches (λ w. P w.db w.now) (to_mirror patches) (λ _ w. P w.db w.now)
unfolding to_mirror
Reaches-to_mirror P patches = record { at = λ w p. (tt, _, refl, p) }

pub transact-eq :
    {A : Type 0} (m : ℕ → Tx Db A) (w : World) {a : A} {db' : Db}
    → m w.now w.db ≡ ok (a, db')
    → transact m w ≡ (ok a, record w { db = db' })
unfolding transact
transact-eq m w e = rw (e, transact) refl

-- A transaction that does not raise.
pub Reaches-transact :
    {A : Type 0} (P : Db → ℕ → Type 0) (m : ℕ → Tx Db A) (Q : Db → ℕ → Type 0)
    → ((now : ℕ) (db : Db) → P db now → (a : A) × (db' : Db) × (m now db ≡ ok (a, db')) × Q db' now)
    → Reaches (λ w. P w.db w.now) (transact m) (λ _ w. Q w.db w.now)
Reaches-transact P m Q h = record {
  at = λ w p. let (a, db', e, q) = h w.now w.db p in (a, _, transact-eq m w e, q);
}

module _ (c : Claimed) where
  done-Settled :
      (now : ℕ) (db : Db)
      → InFlight c db
      → (n : ℕ) × (db' : Db) × (mark_done now c.id db ≡ ok (n, db')) × Settled c none db' now
  done-Settled now db h =
      let (n, s) = mark_done_lem now c.id db h.row h.valid h.found in
      (
        n,
        s.0,
        s.1,
        record {
          valid = s.2;
          row = touch now (finished now h.row);
          found = ground (arith, s.3 c.id);
          verdict = (refl, refl);
        },
      )

  failed-Settled :
      (now : ℕ) (error : String) (db : Db)
      → InFlight c db
      → (db' : Db) × (mark_failed now c.id c.attempts error max_attempts base_backoff_seconds db
          ≡ ok (leb max_attempts c.attempts, db'))
        × Settled c (some error) db' now
  failed-Settled now error db h =
      let s =
        mark_failed_lem now c.id c.attempts error max_attempts base_backoff_seconds db h.row h.valid
          h.found (rw h.busy refl) in
      (
        s.0,
        s.1,
        record {
          valid = s.2;
          row = touch now (settled now c.attempts error max_attempts base_backoff_seconds h.row);
          found = ground (arith, s.3 c.id);
          verdict = (ground arith, (λ e. rw e refl), (λ e. (rw e refl, rw e refl)));
        },
      )

  pub Reaches-mark_done :
      Reaches
        (λ w. InFlight c w.db)
        (transact (λ now. mark_done now c.id))
        (λ _ w. Settled c none w.db w.now)
  Reaches-mark_done =
      Reaches-transact (λ db _. InFlight c db) (λ now. mark_done now c.id) (Settled c none)
        done-Settled

  pub Reaches-mark_failed :
      (error : String)
      → Reaches
          (λ w. InFlight c w.db)
          (transact
            (λ now. mark_failed now c.id c.attempts error max_attempts base_backoff_seconds))
          (λ _ w. Settled c (some error) w.db w.now)
  Reaches-mark_failed error =
      Reaches-transact (λ db _. InFlight c db)
        (λ now. mark_failed now c.id c.attempts error max_attempts base_backoff_seconds)
        (Settled c (some error))
        (λ now db p. let (db', e, s) = failed-Settled now error db p in (_, db', e, s))

  -- Recording the outcome settles the task.
  pub Reaches-record_outcome :
      (error : Option String)
      → Reaches
          (λ w. InFlight c w.db)
          (record_outcome c.id c.attempts error)
          (λ _ w. Settled c error w.db w.now)
  unfolding record_outcome
  Reaches-record_outcome none =
      Reaches-bind Reaches-mark_done
        (λ _. Reaches-pure _ (λ _ w. Settled c none w.db w.now) true (λ _ p. p))
  Reaches-record_outcome (some error) =
      Reaches-bind (Reaches-mark_failed error)
        (λ _. Reaches-pure _ (λ _ w. Settled c (some error) w.db w.now) false (λ _ p. p))

  project-InFlight :
      (now : ℕ) (project : String) (db : Db)
      → live_index c.task_type ≢ some project_column
      → InFlight c db
      → (n : ℕ) × (db' : Db) × (set_task_project now c.id project db ≡ ok (n, db')) × InFlight c db'
  project-InFlight now project db keyed h =
      let s = set_task_project_lem now c.id project db h.row h.valid h.found (rw h.typed keyed) in
      (
        _,
        s.0,
        s.1,
        record {
          valid = s.2;
          row = touch now (record h.row { project_page_id = some project });
          found = ground (arith, s.3 c.id);
          typed = h.typed;
          busy = h.busy;
        },
      )

  -- Writing the project on the row keeps the task in flight.
  pub Reaches-persist_project :
      (project : Option String)
      → live_index c.task_type ≢ some project_column
      → Reaches (λ w. InFlight c w.db) (persist_project c.id project) (λ _ w. InFlight c w.db)
  unfolding persist_project
  Reaches-persist_project none keyed = Reaches-pure _ (λ _ w. InFlight c w.db) tt (λ _ p. p)
  Reaches-persist_project (some project) keyed = elim (Bool-cases (present (some project))) [
    | inl e ↦ rw e (
        Reaches-bind
          (Reaches-transact (λ db _. InFlight c db) (λ now. set_task_project now c.id project)
            (λ db _. InFlight c db) (λ now db p. project-InFlight now project db keyed p))
          (λ _. Reaches-pure _ (λ _ w. InFlight c w.db) tt (λ _ p. p)))
    | inr e ↦ rw e (Reaches-pure _ (λ _ w. InFlight c w.db) tt (λ _ p. p))
  ]
