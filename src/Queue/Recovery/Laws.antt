-- ===== src/Queue/Recovery/Laws.antt =====
-- Boot recovery, the operator's retry and the resolved project on a well-formed table.
use mathlib.Core.Path.{subst}
use gb_automations.Base.{
  ℕ, String, Bool, true, false, Option, none, some, List, [], ◌∷◌, ◌≡◌, ◌≢◌, refl, sym, ◌∙◌, arith,
  All-imp, ok, count_if, if◌then◌else◌, ◌==◌, Bool-cases, inl, inr,
}
use gb_automations.Schema.{
  SyncTask, TaskType, Status, Db, KeyColumns, pending, in_progress, is_in_progress, is_active,
  conflicts, update_rows, touch, live_index, project_column, same_type, same_type_iff, same_key,
}
use gb_automations.Schema.Unique.{and_parts, and_intro, Reflects, step}
use gb_automations.Schema.Valid.{IsValid, update-IsValid}
use gb_automations.Queue.Claim.{eligible}
use gb_automations.Queue.Claim.Fifo.{DistinctIds-In}
use gb_automations.Queue.Outcome.{find_task}
use gb_automations.Queue.Outcome.Find.{on_some, find_task-update_rows, find_task-id, find_task-In}
use gb_automations.Queue.Outcome.Laws.{Succeeds, All-unit}
use gb_automations.Queue.Recovery.{reset_in_progress, set_task_project}

pub find_task-update_rows_if :
    (now j : ℕ) (p : SyncTask → Bool) (f : SyncTask → SyncTask)
    → ((r : SyncTask) → (f r).id ≡ r.id)
    → (rows : List SyncTask)
    → find_task j (update_rows now p f rows) ≡ on_some (step now p f) (find_task j rows)
unfolding find_task update_rows
find_task-update_rows_if now j p f keeps [] = refl
find_task-update_rows_if now j p f keeps (r ∷ rows) =
    ground (arith, keeps r, find_task-update_rows_if now j p f keeps rows)

-- A row after boot recovery.
abbrev pub recovered : ℕ → SyncTask → SyncTask
recovered now r =
    if is_in_progress r.status
    then record r { status = pending; started_at = none; next_attempt_at = now; updated_at = now }
    else r

reset-Reflects :
    (now : ℕ) (r s : SyncTask)
    → Reflects
        (step now
          (λ r. is_in_progress r.status)
          (λ r. record r { status = pending; started_at = none; next_attempt_at = now }))
        r
        s
unfolding conflicts
reset-Reflects now r s h = ground arith

-- On a well-formed table boot recovery never raises. It puts every row in progress back, due at
-- once, counts them, and changes no other row; the table stays well-formed.
pub reset_in_progress_lem :
    (now : ℕ) (db : Db)
    → IsValid db
    → Succeeds
        (reset_in_progress now db)
        (count_if (λ (r : SyncTask). is_in_progress r.status) db.rows)
        (λ j. on_some (recovered now) (find_task j db.rows))
unfolding reset_in_progress
reset_in_progress_lem now db v =
    let u =
      update-IsValid now (λ r. is_in_progress r.status)
        (λ r. record r { status = pending; started_at = none; next_attempt_at = now }) (λ r. refl)
        (λ r. Unit {0}) (λ r s _ _. reset-Reflects now r s) db (All-unit db.rows) v in
    (_, u.0, u.1, find_task-reset)
  where
    find_task-reset :
        (j : ℕ)
        → find_task j (
            update_rows now
              (λ r. is_in_progress r.status)
              (λ r. record r { status = pending; started_at = none; next_attempt_at = now })
              db.rows)
          ≡ on_some (recovered now) (find_task j db.rows)
    find_task-reset j = find_task-update_rows_if now j _ _ (λ r. refl) db.rows

-- On a well-formed table a task that is in progress at boot recovery is eligible again right after
-- it.
pub reset-eligible :
    (now i : ℕ) (db : Db) (t : SyncTask)
    → IsValid db
    → find_task i db.rows ≡ some t
    → t.status ≡ in_progress
    → (n : ℕ) × (db' : Db) × (reset_in_progress now db ≡ ok (n, db'))
      × ((r : SyncTask) × (find_task i db'.rows ≡ some r) × (eligible (λ _. false) now r ≡ true))
unfolding eligible
reset-eligible now i db t v found busy =
    let s = reset_in_progress_lem now db v in
    (_, s.0, s.1, (recovered now t, ground (arith, s.3 i), ground arith))

-- The row's unique index does not have the project among its columns.
abbrev pub NotByProject : ℕ → SyncTask → Type 0
NotByProject i r = (r.id == i) ≡ true → live_index r.task_type ≢ some project_column

same_key_columns :
    (k : Option KeyColumns) (r r' s s' : SyncTask)
    → k ≢ some project_column
    → r'.user_email ≡ r.user_email
    → r'.gmail_thread_id ≡ r.gmail_thread_id
    → s'.user_email ≡ s.user_email
    → s'.gmail_thread_id ≡ s.gmail_thread_id
    → same_key k r' s' ≡ same_key k r s
same_key_columns none r r' s s' h a b c d = refl
same_key_columns (some KeyColumns.user_and_thread) r r' s s' h a b c d = rw (a, b, c, d) refl
same_key_columns (some KeyColumns.thread_column) r r' s s' h a b c d = rw (b, d) refl
same_key_columns (some KeyColumns.project_column) r r' s s' h a b c d = absurd (h refl)

-- Rows that agree outside the project conflict alike, under an index without the project.
conflicts_columns :
    (r r' s s' : SyncTask)
    → (same_type r.task_type s.task_type ≡ true → live_index r.task_type ≢ some project_column)
    → (r'.status ≡ r.status) × (s'.status ≡ s.status)
    → (r'.task_type ≡ r.task_type) × (s'.task_type ≡ s.task_type)
    → (r'.user_email ≡ r.user_email) × (r'.gmail_thread_id ≡ r.gmail_thread_id)
    → (s'.user_email ≡ s.user_email) × (s'.gmail_thread_id ≡ s.gmail_thread_id)
    → conflicts r' s' ≡ true
    → conflicts r s ≡ true
unfolding conflicts
conflicts_columns r r' s s' h st ty a b c =
    let (p, q, t, k) =
      and_parts (is_active r'.status) (is_active s'.status) (same_type r'.task_type s'.task_type)
        (same_key (live_index r'.task_type) r' s') c in
    let t' =
      subst (λ (x : TaskType). same_type r.task_type x ≡ true) ty.1
        (subst (λ (x : TaskType). same_type x s'.task_type ≡ true) ty.0 t) in
    and_intro (is_active r.status) (is_active s.status) (same_type r.task_type s.task_type)
      (same_key (live_index r.task_type) r s) (subst (λ (x : Status). is_active x ≡ true) st.0 p)
      (subst (λ (x : Status). is_active x ≡ true) st.1 q) t'
      (sym (same_key_columns (live_index r.task_type) r r' s s' (h t') a.0 a.1 b.0 b.1)
        ∙ subst (λ (x : TaskType). same_key (live_index x) r' s' ≡ true) ty.0 k)

abbrev with_project : String → SyncTask → SyncTask
with_project project r = record r { project_page_id = some project }

project-Reflects :
    (now i : ℕ) (project : String) (r s : SyncTask)
    → NotByProject i r
    → NotByProject i s
    → Reflects (step now (λ r. r.id == i) (with_project project)) r s
unfolding conflicts
project-Reflects now i project r s hr hs h = elim (Bool-cases (r.id == i)) [
  | inl a ↦ elim (Bool-cases (s.id == i)) [
    | inl b ↦
        conflicts_columns r (touch now (with_project project r)) s
          (touch now (with_project project s)) (λ _. hr a) (refl, refl) (refl, refl) (refl, refl)
          (refl, refl) (rw (a, b) at h)
    | inr b ↦
        conflicts_columns r (touch now (with_project project r)) s s (λ _. hr a) (refl, refl)
          (refl, refl) (refl, refl) (refl, refl) (rw (a, b) at h)
  ]
  | inr a ↦ elim (Bool-cases (s.id == i)) [
    | inl b ↦
        conflicts_columns r r s (touch now (with_project project s))
          (λ same.
            subst (λ (t : TaskType). live_index t ≢ some project_column)
              (sym ((same_type_iff r.task_type s.task_type).0 same)) (hs b))
          (refl, refl) (refl, refl) (refl, refl) (refl, refl) (rw (a, b) at h)
    | inr b ↦ rw (a, b) at h
  ]
]

-- On a well-formed table, writing the resolved project on a task whose index has not the project
-- among its columns never raises, and changes that row alone; the table stays well-formed.
pub set_task_project_lem :
    (now i : ℕ) (project : String) (db : Db) (t : SyncTask)
    → IsValid db
    → find_task i db.rows ≡ some t
    → live_index t.task_type ≢ some project_column
    → Succeeds
        (set_task_project now i project db)
        (count_if (λ (r : SyncTask). r.id == i) db.rows)
        (λ j.
          if i == j
          then some (touch now (record t { project_page_id = some project }))
          else find_task j db.rows)
unfolding set_task_project
set_task_project_lem now i project db t v found keyed =
    let u =
      update-IsValid now (λ r. r.id == i) (with_project project) (λ r. refl) (NotByProject i)
        (project-Reflects now i project) db
        (All-imp (λ (s : SyncTask). s.id ≡ t.id → s ≡ t) (NotByProject i)
          (λ s same e. rw (same (ground (arith, find_task-id i db.rows {r = t}))) keyed) db.rows
          (DistinctIds-In (find_task-In i db.rows found) v.distinct))
        v in
    (
      _,
      u.0,
      u.1,
      λ j. ground (arith, find_task-update_rows now i j (with_project project) (λ r. refl) db.rows),
    )
