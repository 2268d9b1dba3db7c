-- ===== src/Queue/Rollup/Laws.antt =====
-- What the state of a project says of the queue.
use gb_automations.Base.{
  ◌<◌, ◌≤◌, ◌≢◌, String, Bool, true, false, some, List, [], ◌∷◌, ◌≡◌, refl, arith, All, All-imp, In,
  here, there, any_of, Bool-cases, inl, inr, same_text,
}
use gb_automations.Schema.{SyncTask, Status, done, is_active}
use gb_automations.Queue.Rollup.{
  ProjectState, failed, retrying, active, idle, has_failed, is_retrying, is_owed,
  project_sync_state,
}

pub any_of-In :
    (p : SyncTask → Bool) (rows : List SyncTask)
    → any_of p rows ≡ true
    → (r : SyncTask) × In r rows × (p r ≡ true)
any_of-In p [] h = cc
any_of-In p (r ∷ rows) h = elim (Bool-cases (p r)) [
  | inl e ↦ (r, here refl, e)
  | inr e ↦ let (s, m, q) = any_of-In p rows (rw e at h) in (s, there m, q)
]

pub any_of-All :
    (p : SyncTask → Bool) (rows : List SyncTask)
    → any_of p rows ≡ false
    → All (λ (r : SyncTask). p r ≡ false) rows
any_of-All p [] h = tt
any_of-All p (r ∷ rows) h = (ground arith, any_of-All p rows (ground arith))

-- The row belongs to the project.
abbrev pub of_project : String → SyncTask → Bool
of_project p r = same_text r.project_page_id (some p)

-- What each state tells of the project's rows.
pub data Tells (p : String) (rows : List SyncTask) : ProjectState → Type 0 where
  -- a task has failed for good
  red :
      (r : SyncTask)
      → In r rows
      → of_project p r ≡ true
      → r.status ≡ Status.failed
      → Tells p rows failed
  -- none has, and an active task is past its first attempt
  orange :
      (r : SyncTask)
      → In r rows
      → of_project p r ≡ true
      → is_active r.status ≡ true
      → 1 < r.attempts
      → All (λ (s : SyncTask). of_project p s ≡ true → s.status ≢ Status.failed) rows
      → Tells p rows retrying
  -- a task is active; none has failed, and every active one is at its first attempt at most
  green :
      (r : SyncTask)
      → In r rows
      → of_project p r ≡ true
      → is_active r.status ≡ true
      → All
          (λ (s : SyncTask).
            of_project p s ≡ true
            → (s.status ≢ Status.failed) × (is_active s.status ≡ true → s.attempts ≤ 1))
          rows
      → Tells p rows active
  -- every task of the project is done
  grey : All (λ (s : SyncTask). of_project p s ≡ true → s.status ≡ done) rows → Tells p rows idle

not_failed :
    (p : String) (rows : List SyncTask)
    → any_of (has_failed p) rows ≡ false
    → All (λ (s : SyncTask). of_project p s ≡ true → s.status ≢ Status.failed) rows
unfolding has_failed
not_failed p rows h =
    All-imp (λ (s : SyncTask). has_failed p s ≡ false)
      (λ (s : SyncTask). of_project p s ≡ true → s.status ≢ Status.failed)
      (λ s e o dead. ground arith) rows (any_of-All (has_failed p) rows h)

not_retrying :
    (p : String) (rows : List SyncTask)
    → any_of (has_failed p) rows ≡ false
    → any_of (is_retrying p) rows ≡ false
    → All
        (λ (s : SyncTask).
          of_project p s ≡ true
          → (s.status ≢ Status.failed) × (is_active s.status ≡ true → s.attempts ≤ 1))
        rows
unfolding has_failed is_retrying
not_retrying p [] f h = tt
not_retrying p (r ∷ rows) f h = (
  λ o. ((λ dead. ground arith), λ busy. ground arith),
  not_retrying p rows (ground arith) (ground arith),
)

rest_done :
    (p : String) (rows : List SyncTask)
    → any_of (has_failed p) rows ≡ false
    → any_of (is_owed p) rows ≡ false
    → All (λ (s : SyncTask). of_project p s ≡ true → s.status ≡ done) rows
unfolding has_failed is_owed
rest_done p [] f h = tt
rest_done p (r ∷ rows) f h = ((λ o. ground arith), rest_done p rows (ground arith) (ground arith))

-- The state says what holds of the project's rows: failed before retrying before active before
-- idle, and idle exactly where all is done.
pub project_sync_state-Tells :
    (p : String) (rows : List SyncTask) → Tells p rows (project_sync_state p rows)
unfolding project_sync_state
project_sync_state-Tells p rows = elim (Bool-cases (any_of (has_failed p) rows)) [
  | inl e ↦
      let (r, m, q) = any_of-In (has_failed p) rows e in
      rw e (Tells.red r m (ground arith) (ground arith))
  | inr f ↦ elim (Bool-cases (any_of (is_retrying p) rows)) [
    | inl e ↦
        let (r, m, q) = any_of-In (is_retrying p) rows e in
        rw (f, e)
          (Tells.orange r m (ground arith) (ground arith) (ground arith) (not_failed p rows f))
    | inr g ↦ elim (Bool-cases (any_of (is_owed p) rows)) [
      | inl e ↦
          let (r, m, q) = any_of-In (is_owed p) rows e in
          rw (f, g, e) (Tells.green r m (ground arith) (ground arith) (not_retrying p rows f g))
      | inr h ↦ rw (f, g, h) (Tells.grey (rest_done p rows f h))
    ]
  ]
]
