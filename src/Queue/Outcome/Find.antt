-- ===== src/Queue/Outcome/Find.antt =====
-- Rows by their primary key, under UPDATE … WHERE id = … and DELETE.
use gb_automations.Base.{
  ℕ, Bool, Option, none, some, List, [], ◌∷◌, ◌≡◌, ◌≢◌, refl, arith, All, All-keep_if, keep_if,
  if◌then◌else◌, Bool-cases, inl, inr, ◌==◌, In, here, there,
}
use gb_automations.Schema.{SyncTask, update_rows, touch}
use gb_automations.Schema.Valid.{DistinctIds}
use gb_automations.Queue.Outcome.{find_task}

abbrev pub on_some : (SyncTask → SyncTask) → Option SyncTask → Option SyncTask
on_some f none = none
on_some f (some r) = some (f r)

abbrev pub only_if : (SyncTask → Bool) → Option SyncTask → Option SyncTask
only_if p none = none
only_if p (some r) = if p r then some r else none

pub find_task-update_rows :
    (now i j : ℕ) (f : SyncTask → SyncTask)
    → ((r : SyncTask) → (f r).id ≡ r.id)
    → (rows : List SyncTask)
    → find_task j (update_rows now (λ r. r.id == i) f rows)
      ≡ (if i == j then on_some (λ r. touch now (f r)) (find_task j rows) else find_task j rows)
unfolding find_task update_rows
find_task-update_rows now i j f keeps [] = ground arith
find_task-update_rows now i j f keeps (r ∷ rows) =
    ground (arith, keeps r, find_task-update_rows now i j f keeps rows)

find_task-eq-none :
    (j : ℕ) (rows : List SyncTask) → All (λ (s : SyncTask). s.id ≢ j) rows → find_task j rows ≡ none
unfolding find_task
find_task-eq-none j [] h = refl
find_task-eq-none j (r ∷ rows) h = ground (arith, h.0, find_task-eq-none j rows h.1)

pub find_task-keep_if :
    (j : ℕ) (p : SyncTask → Bool) (rows : List SyncTask)
    → DistinctIds rows
    → find_task j (keep_if p rows) ≡ only_if p (find_task j rows)
unfolding find_task
find_task-keep_if j p [] d = refl
find_task-keep_if j p (r ∷ rows) d = ground (
  arith,
  find_task-keep_if j p rows d.1,
  λ (e : r.id ≡ j).
      find_task-eq-none j (keep_if p rows)
        (All-keep_if (λ (s : SyncTask). s.id ≢ j) p rows (rw e at d.0)),
)

pub find_task-id :
    (j : ℕ) (rows : List SyncTask) {r : SyncTask} → find_task j rows ≡ some r → r.id ≡ j
unfolding find_task
find_task-id j [] h = absurd (ground arith)
find_task-id j (x ∷ rows) {r} h = ground (arith, find_task-id j rows {r = r})

pub find_task-In :
    (j : ℕ) (rows : List SyncTask) {r : SyncTask} → find_task j rows ≡ some r → In r rows
unfolding find_task
find_task-In j [] h = absurd (ground arith)
find_task-In j (x ∷ rows) h = elim (Bool-cases (x.id == j)) [
  | inl e ↦ here (ground arith)
  | inr e ↦ there (find_task-In j rows (rw e at h))
]
