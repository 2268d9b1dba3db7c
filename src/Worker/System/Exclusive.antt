-- ===== src/Worker/System/Exclusive.antt =====
-- No task is held twice.
use mathlib.Core.Path.{subst}
use gb_automations.Base.{
  ℕ, String, Bool, Option, some, List, [], ◌∷◌, ◌≡◌, ◌≢◌, refl, arith, All, All-keep_if, All-In, In,
  Result, ok, ◌==◌, not, Bool-cases, inl, inr,
}
use gb_automations.Schema.{SyncTask, Db, live_index, project_column, touch}
use gb_automations.Schema.Valid.{IsValid}
use gb_automations.Queue.Outcome.{find_task, is_stale, mark_done, mark_failed}
use gb_automations.Queue.Outcome.Laws.{Succeeds, mark_done_lem, mark_failed_lem}
use gb_automations.Queue.Recovery.{requeue_failed, set_task_project}
use gb_automations.Queue.Recovery.Laws.{set_task_project_lem}
use gb_automations.Queue.Recovery.Retry.{RetryOutcome, requeue_failed-outcome}
use gb_automations.Worker.World.{Claimed, max_attempts, base_backoff_seconds}
use gb_automations.Worker.Settles.Steps.{InFlight}
use gb_automations.Worker.System.{System, release}

-- No two of the claims are of one task.
abbrev pub Apart : List Claimed → Type 0
Apart [] = Unit
Apart (c ∷ held) = All (λ (d : Claimed). d.id ≢ c.id) held × Apart held

-- The table is well-formed, every held task is in progress in it, and none is held twice.
pub record IsSafe (s : System) : Type 0 where
  pub valid : IsValid s.db
  pub in_flight : All (λ (c : Claimed). InFlight c s.db) s.held
  pub apart : Apart s.held

pub Succeeds-at :
    {A : Type 0} {r : Result (A × Db)} {a b : A} {view : ℕ → Option SyncTask} {db' : Db}
    → Succeeds r a view
    → r ≡ ok (b, db')
    → IsValid db' × ((j : ℕ) → find_task j db'.rows ≡ view j)
Succeeds-at {view} {db'} (d, e, v, f) e' =
    let same : d ≡ db' = cc in
    subst (λ (x : Db). IsValid x × ((j : ℕ) → find_task j x.rows ≡ view j)) same (v, f)

-- A held task stays in flight where its row is still found.
pub still :
    (d : Claimed) (db db' : Db) (h : InFlight d db)
    → IsValid db'
    → find_task d.id db'.rows ≡ some h.row
    → InFlight d db'
still d db db' h v f = record { valid = v; row = h.row; found = f; typed = h.typed; busy = h.busy }

pub All-release :
    (P : Claimed → Type 0) (c : Claimed) (held : List Claimed)
    → All (λ (d : Claimed). d.id ≢ c.id → P d) held
    → All P (release c held)
All-release P c [] h = tt
All-release P c (d ∷ held) h = elim (Bool-cases (d.id == c.id)) [
  | inl e ↦ rw e (All-release P c held h.1)
  | inr e ↦ rw e (h.0 (ground arith), All-release P c held h.1)
]

pub Apart-release : (c : Claimed) (held : List Claimed) → Apart held → Apart (release c held)
Apart-release c [] h = tt
Apart-release c (d ∷ held) h = elim (Bool-cases (d.id == c.id)) [
  | inl e ↦ rw e (Apart-release c held h.1)
  | inr e ↦ rw e (
    All-keep_if (λ (x : Claimed). x.id ≢ d.id) (λ (x : Claimed). not (x.id == c.id)) held h.0,
    Apart-release c held h.1,
  )
]

pub held-InFlight : {c : Claimed} {s : System} → IsSafe s → In c s.held → InFlight c s.db
held-InFlight {c} {s} safe m = All-In (λ (d : Claimed). InFlight d s.db) m safe.in_flight

-- Another task's success.
pub done-still :
    (now : ℕ) (c d : Claimed) (db db' : Db) {n : ℕ}
    → InFlight c db
    → mark_done now c.id db ≡ ok (n, db')
    → InFlight d db
    → d.id ≢ c.id
    → InFlight d db'
unfolding is_stale
done-still now c d db db' hc e h ne =
    let (v, f) = Succeeds-at (mark_done_lem now c.id db hc.row hc.valid hc.found).1 e in
    still d db db' h v (ground (arith, f d.id, h.found, h.busy))

-- Another task's failure.
pub failed-still :
    (now : ℕ) (c d : Claimed) (error : String) (db db' : Db) {b : Bool}
    → InFlight c db
    → mark_failed now c.id c.attempts error max_attempts base_backoff_seconds db ≡ ok (b, db')
    → InFlight d db
    → d.id ≢ c.id
    → InFlight d db'
failed-still now c d error db db' hc e h ne =
    let (v, f) =
      Succeeds-at
        (mark_failed_lem now c.id c.attempts error max_attempts base_backoff_seconds db hc.row
          hc.valid hc.found (rw hc.busy refl))
        e in
    still d db db' h v (ground (arith, f d.id, h.found))

pub retry-still :
    (now : ℕ) (thread_id : Option String) (db db' : Db) {n : ℕ}
    → IsValid db
    → requeue_failed now thread_id db ≡ ok (n, db')
    → IsValid db' × ((d : Claimed) → InFlight d db → InFlight d db')
retry-still now thread_id db db' v e = elim (requeue_failed-outcome now thread_id db v) [
  | RetryOutcome.refused twins raised ↦ absurd (cc (raised, e))
  | RetryOutcome.retried_all s ↦
      let (v', f) = Succeeds-at s e in
      (v', λ d h. still d db db' h v' (ground (arith, f d.id, h.found, h.busy)))
]

pub resolve-still :
    (now : ℕ) (c d : Claimed) (project : String) (db db' : Db) {n : ℕ}
    → InFlight c db
    → live_index c.task_type ≢ some project_column
    → set_task_project now c.id project db ≡ ok (n, db')
    → IsValid db' × (InFlight d db → InFlight d db')
resolve-still now c d project db db' hc keyed e =
    let (v, f) =
      Succeeds-at
        (set_task_project_lem now c.id project db hc.row hc.valid hc.found (rw hc.typed keyed)) e in
    (
      v,
      λ h. elim (Bool-cases (c.id == d.id)) [
        | inl same ↦ record {
          valid = v;
          row = touch now (record h.row { project_page_id = some project });
          found = ground (arith, f d.id, h.found, hc.found);
          typed = h.typed;
          busy = h.busy;
        }
        | inr other ↦ still d db db' h v (ground (arith, f d.id, h.found))
      ],
    )
