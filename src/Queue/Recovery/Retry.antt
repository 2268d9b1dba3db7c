-- ===== src/Queue/Recovery/Retry.antt =====
-- The operator's retry, and when the unique indexes refuse it.
use gb_automations.Base.{
  ℕ, String, true, Option, ◌≡◌, refl, Result, err, unique_violation, count_if, Bool-cases, inl, inr,
}
use gb_automations.Schema.{Db, conflicts, update, update_rows, unique_active}
use gb_automations.Schema.Unique.{step}
use gb_automations.Schema.Valid.{IsValid, updated-IsValid}
use gb_automations.Queue.Outcome.{find_task}
use gb_automations.Queue.Outcome.Find.{on_some}
use gb_automations.Queue.Outcome.Laws.{Succeeds}
use gb_automations.Queue.Recovery.Laws.{find_task-update_rows_if}
use gb_automations.Queue.Recovery.{requeued, requeue_failed}
use gb_automations.Queue.Recovery.Duplicate.{
  selected, Duplicate, retried, conflicts-retried, Duplicate-found, no_clash,
}

-- The outcomes of a retry: it succeeds, or two rows would become active under one key.
pub data RetryOutcome (now : ℕ) (thread_id : Option String) (db : Db) (r : Result (ℕ × Db))
    : Type 0 where
  retried_all :
      Succeeds r
        (count_if (selected thread_id) db.rows)
        (λ j. on_some (step now (selected thread_id) (requeued now)) (find_task j db.rows))
      → RetryOutcome now thread_id db r
  refused : Duplicate thread_id db.rows → r ≡ err unique_violation → RetryOutcome now thread_id db r

-- On a well-formed table the retry puts every selected row back as a fresh pending one and
-- changes no other, unless two rows would become active under one key; then it raises.
pub requeue_failed-outcome :
    (now : ℕ) (thread_id : Option String) (db : Db)
    → IsValid db
    → RetryOutcome now thread_id db (requeue_failed now thread_id db)
unfolding requeue_failed update
requeue_failed-outcome now thread_id db v =
    elim (Bool-cases
      (unique_active (update_rows now (selected thread_id) (requeued now) db.rows))) [
        | inl fits ↦ RetryOutcome.retried_all (
          _,
          rw fits refl,
          updated-IsValid now (selected thread_id) (requeued now) (λ r. refl) db fits v,
          λ j.
              find_task-update_rows_if now j (selected thread_id) (requeued now) (λ r. refl)
                db.rows,
        )
        | inr clash ↦
            RetryOutcome.refused (Duplicate-found now thread_id db.rows v.distinct clash)
              (rw clash refl)
      ]

-- A failed row whose key another row holds, active or selected too, blocks the whole retry.
pub requeue_failed-blocked :
    (now : ℕ) (thread_id : Option String) (db : Db)
    → Duplicate thread_id db.rows
    → requeue_failed now thread_id db ≡ err unique_violation
unfolding requeue_failed update
requeue_failed-blocked now thread_id db d =
    let c : conflicts (retried now thread_id d.one) (retried now thread_id d.other) ≡ true =
      rw
        (
          conflicts-retried now thread_id d.one d.other,
          d.one_revived,
          d.other_revived,
          d.types,
          d.keys,
        )
        refl in
    elim (Bool-cases
      (unique_active (update_rows now (selected thread_id) (requeued now) db.rows))) [
        | inl fits ↦ absurd (no_clash now thread_id d.one_in d.other_in d.apart c fits)
        | inr clash ↦ rw clash refl
      ]
