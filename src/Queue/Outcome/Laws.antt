-- ===== src/Queue/Outcome/Laws.antt =====
-- What `mark_done` and `mark_failed` leave in a well-formed table.
use gb_automations.Base.{
  ℕ, ◌+◌, String, Bool, true, false, Option, none, some, List, [], ◌∷◌, ◌≡◌, refl, arith, All,
  All-imp, Result, ok, if◌then◌else◌, Bool-cases, Option-cases, inl, inr, ◌==◌, ◌&&◌, not, leb,
  truthy, count_if, keep_if,
}
use gb_automations.Schema.{SyncTask, Db, is_active, update, update_rows, delete, conflicts, touch}
use gb_automations.Schema.Unique.{Reflects, step}
use gb_automations.Schema.Valid.{IsValid, update-IsValid, delete-IsValid}
use gb_automations.Queue.Claim.Fifo.{DistinctIds-In}
use gb_automations.Queue.Claim.Laws.{ActiveAt}
use gb_automations.Queue.Outcome.{
  find_task, finished, is_stale, clear_stale, mark_done, backoff, parked, delayed, mark_failed,
}
use gb_automations.Queue.Outcome.Find.{
  only_if, find_task-update_rows, find_task-keep_if, find_task-id, find_task-In,
}

-- The row with the key `i` is active, in a table with distinct keys.
pub ActiveAt-find :
    (i : ℕ) (db : Db) (t : SyncTask)
    → IsValid db
    → find_task i db.rows ≡ some t
    → is_active t.status ≡ true
    → All (ActiveAt i) db.rows
ActiveAt-find i db t v found active =
    All-imp (λ (s : SyncTask). s.id ≡ t.id → s ≡ t) (ActiveAt i)
      (λ s same e. rw (same (ground (arith, find_task-id i db.rows found))) active) db.rows
      (DistinctIds-In (find_task-In i db.rows found) v.distinct)

parked-Reflects :
    (now i : ℕ) (error : String) (r s : SyncTask)
    → Reflects (step now (λ r. r.id == i) (parked now error)) r s
unfolding conflicts
parked-Reflects now i error r s h = ground arith

delayed-Reflects :
    (now i at : ℕ) (error : String) (r s : SyncTask)
    → ActiveAt i r
    → ActiveAt i s
    → Reflects (step now (λ r. r.id == i) (delayed at error)) r s
unfolding conflicts
delayed-Reflects now i at error r s hr hs h = ground arith

finished-Reflects :
    (now i : ℕ) (r s : SyncTask) → Reflects (step now (λ r. r.id == i) (finished now)) r s
unfolding conflicts
finished-Reflects now i r s h = ground arith

-- The row that a failed attempt leaves.
abbrev pub settled : ℕ → ℕ → String → ℕ → ℕ → SyncTask → SyncTask
settled now attempts error max base t =
    if leb max attempts then parked now error t else delayed (now + backoff base attempts) error t

-- A transaction that succeeds with `a`, keeps the table well-formed, and changes the rows by `view`.
abbrev pub Succeeds {ℓ} : {A : Type ℓ} → Result (A × Db) → A → (ℕ → Option SyncTask) → Type ℓ
Succeeds r a view =
    (db' : Db) × (r ≡ ok (a, db')) × IsValid db' × ((j : ℕ) → find_task j db'.rows ≡ view j)

-- On a well-formed table a failed attempt of an active task never raises. It parks the task
-- exactly when its attempts have reached the maximum, and puts it back with its delay otherwise; no
-- other row changes, and the table stays well-formed.
pub mark_failed_lem :
    (now i attempts : ℕ) (error : String) (max base : ℕ) (db : Db) (t : SyncTask)
    → IsValid db
    → find_task i db.rows ≡ some t
    → is_active t.status ≡ true
    → Succeeds (mark_failed now i attempts error max base db) (leb max attempts) (λ j.
      if i == j
      then some (touch now (settled now attempts error max base t))
      else find_task j db.rows)
unfolding mark_failed
mark_failed_lem now i attempts error max base db t v found active =
    elim (Bool-cases (leb max attempts)) [
      | inl last ↦
          let u =
            update-IsValid now (λ r. r.id == i) (parked now error) (λ r. refl) (ActiveAt i)
              (λ r s _ _. parked-Reflects now i error r s) db (ActiveAt-find i db t v found active)
              v in
          (
            _,
            rw (last, u.0) refl,
            u.1,
            λ j. rw last (
                ground
                  (arith, find_task-update_rows now i j (parked now error) (λ r. refl) db.rows)),
          )
      | inr more ↦
          let at = now + backoff base attempts in
          let u =
            update-IsValid now (λ r. r.id == i) (delayed at error) (λ r. refl) (ActiveAt i)
              (delayed-Reflects now i at error) db (ActiveAt-find i db t v found active) v in
          (
            _,
            rw (more, u.0) refl,
            u.1,
            λ j. rw more (
                ground
                  (arith, find_task-update_rows now i j (delayed at error) (λ r. refl) db.rows)),
          )
    ]

-- What a success of `t` deletes.
abbrev pub is_cleared : ℕ → SyncTask → SyncTask → Bool
is_cleared i t r = elim t.project_page_id [
  | none ↦ false
  | some project ↦ truthy project && is_stale i project t.task_type r
]

abbrev pub done_view : ℕ → ℕ → SyncTask → List SyncTask → ℕ → Option SyncTask
done_view now i t rows j =
    if i == j
    then some (touch now (finished now t))
    else only_if (λ r. not (is_cleared i t r)) (find_task j rows)

only_if_all : (o : Option SyncTask) → only_if (λ r. true) o ≡ o
only_if_all none = refl
only_if_all (some r) = refl

finished_stays :
    (now i : ℕ) (t : SyncTask) (project : String)
    → is_stale i project t.task_type (touch now (finished now t)) ≡ false
unfolding is_stale
finished_stays now i t project = ground arith

pub All-unit : (rows : List SyncTask) → All (λ (r : SyncTask). Unit {0}) rows
All-unit [] = tt
All-unit (r ∷ rows) = (tt, All-unit rows)

module _ (now i : ℕ) (db : Db) (t : SyncTask) (v : IsValid db)
    (found : find_task i db.rows ≡ some t) where
  abbrev finished_rows : List SyncTask
  finished_rows = update_rows now (λ r. r.id == i) (finished now) db.rows

  abbrev finished_db : Db
  finished_db = record db { rows = finished_rows }

  abbrev cleared_db : String → Db
  cleared_db project = record db {
    rows = keep_if (λ r. not (is_stale i project t.task_type r)) finished_rows;
  }

  update-finished :
      (update now (λ r. r.id == i) (finished now) db
        ≡ ok (count_if (λ (r : SyncTask). r.id == i) db.rows, finished_db))
      × IsValid finished_db
  update-finished =
      update-IsValid now (λ r. r.id == i) (finished now) (λ r. refl) (λ r. Unit {0})
        (λ r s _ _. finished-Reflects now i r s) db (All-unit db.rows) v

  find_finished :
      (j : ℕ)
      → find_task j finished_rows
        ≡ (if i == j then some (touch now (finished now t)) else find_task j db.rows)
  find_finished j = ground (arith, find_task-update_rows now i j (finished now) (λ r. refl) db.rows)

  -- On a well-formed table that has `t` under its key, a success of `t` never raises. It marks the
  -- row done, with no error, and deletes the terminally failed rows of the same project and task
  -- type; no other row changes, and the table stays well-formed.
  pub mark_done_lem : (n : ℕ) × Succeeds (mark_done now i db) n (done_view now i t db.rows)
  unfolding mark_done clear_stale delete
  mark_done_lem = elim (Option-cases t.project_page_id) [
    | inl free ↦ (
      0,
      (
        finished_db,
        rw (found, update-finished.0, free) refl,
        update-finished.1,
        λ j. ground (arith, find_finished j),
      ),
    )
    | inr (project, owner) ↦ elim (Bool-cases (truthy project)) [
      | inl named ↦ (
        count_if (is_stale i project t.task_type) finished_rows,
        (
          cleared_db project,
          rw (found, update-finished.0, owner, named) refl,
          delete-IsValid (is_stale i project t.task_type) finished_db update-finished.1,
          λ j. ground (
            arith,
            find_finished j,
            finished_stays now i t project,
            find_task-keep_if j (λ r. not (is_stale i project t.task_type r)) finished_rows
                update-finished.1.distinct,
          ),
        ),
      )
      | inr unnamed ↦ (
        0,
        (
          finished_db,
          rw (found, update-finished.0, owner, unnamed) refl,
          update-finished.1,
          λ j. ground (arith, find_finished j),
        ),
      )
    ]
  ]
