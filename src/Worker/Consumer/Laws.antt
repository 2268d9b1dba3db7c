-- ===== src/Worker/Consumer/Laws.antt =====
-- A whole round on a well-formed table.
use gb_automations.Base.{
  ℕ, ◌+◌, String, Bool, false, Option, some, ◌≡◌, refl, All, All-In, In, here, there, ◌≢◌, ok, List,
  arith,
}
use gb_automations.Schema.{SyncTask, Db, touch}
use gb_automations.Schema.Valid.{IsValid, DistinctIds}
use gb_automations.Queue.Claim.{eligible, claimed, claim_one}
use gb_automations.Queue.Claim.Fifo.{IsFirst}
use gb_automations.Queue.Claim.Laws.{ClaimOutcome, claim_one-outcome, after_claim}
use gb_automations.Queue.Rollup.{status_counts}
use gb_automations.Queue.Outcome.{find_task}
use gb_automations.Queue.Outcome.Find.{find_task-update_rows}
use gb_automations.Mirror.{Settings}
use gb_automations.Worker.Engines.{Engines}
use gb_automations.Worker.Exec.{pure, ◌>>=◌}
use gb_automations.Worker.World.{World, Claimed, claim, flatten, flattened}
use gb_automations.Worker.ThreadTask.{process}
use gb_automations.Worker.Consumer.{consumer_round, work_on, swallow, pending_now, progress_text}
use gb_automations.Worker.Settles.Steps.{InFlight, Settled, transact-eq}
use gb_automations.Worker.Settles.Error.{error_of}
use gb_automations.Worker.Settles.Handlers.{handler-Settles}

-- The claim of `t` as the consumer holds it.
abbrev pub taken_claim : ℕ → SyncTask → Claimed
taken_claim now t = flatten (claimed now (t.attempts + 1) t)

-- What a round does: nothing is eligible and the table stays; or the first eligible task is
-- claimed and settled by what its engine says.
pub data RoundOutcome (engines : Engines) (locked : ℕ → Bool) (batch_pos : ℕ) (w : World)
    (position : ℕ) (w' : World) : Type 0 where
  waits :
      All (λ (s : SyncTask). eligible locked w.now s ≡ false) w.db.rows
      → position ≡ 0
      → w'.db ≡ w.db
      → RoundOutcome engines locked batch_pos w position w'
  works :
      (t : SyncTask)
      → IsFirst (eligible locked w.now) w.db.rows t
      → position ≡ batch_pos + 1
      → Settled
          (taken_claim w.now t)
          (error_of engines t.task_type (taken_claim w.now t))
          w'.db
          w'.now
      → RoundOutcome engines locked batch_pos w position w'

pub find_task-of_In :
    {t : SyncTask} {rows : List SyncTask}
    → In t rows
    → DistinctIds rows
    → find_task t.id rows ≡ some t
unfolding find_task
find_task-of_In {t} (here {x} {xs} e) d = rw e (ground arith)
find_task-of_In {t} (there {x} {xs} m) d =
    ground (arith, find_task-of_In m d.1, All-In (λ (s : SyncTask). s.id ≢ x.id) m d.0)

pub taken-InFlight :
    (now : ℕ) (db : Db) (t : SyncTask)
    → IsValid db
    → In t db.rows
    → IsValid (after_claim now t db)
    → InFlight (taken_claim now t) (after_claim now t db)
unfolding flatten
taken-InFlight now db t v m v' = record {
  valid = v';
  row = touch now (claimed now (t.attempts + 1) t);
  found = ground (
    arith,
    find_task-of_In m v.distinct,
    find_task-update_rows now t.id t.id (claimed now (t.attempts + 1)) (λ r. refl) db.rows,
  );
  typed = refl;
  busy = refl;
}

claim-eq :
    (locked : ℕ → Bool) (w : World) {o : Option SyncTask} {db' : Db}
    → claim_one locked w.now w.db ≡ ok (o, db')
    → claim locked w ≡ (ok (flattened o), record w { db = db' })
unfolding claim ◌>>=◌ pure
claim-eq locked w e = rw (transact-eq (claim_one locked) w e) refl

-- A task that a consumer has in flight is settled by one call of `process`, which never raises:
-- done if its engine reports no error, and failed or delayed with the engine's error otherwise.
pub process-Settled :
    (settings : Settings) (engines : Engines) (progress : String) (c : Claimed) (w : World)
    → InFlight c w.db
    → (w' : World) × (process settings engines progress c w ≡ (ok tt, w'))
      × Settled c (error_of engines c.task_type c) w'.db w'.now
unfolding process
process-Settled settings engines progress c w h =
    let (u, w', e, s) = (handler-Settles settings engines c progress c.task_type refl).at w h in
    (w', e, s)

work_on-Settled :
    (settings : Settings) (engines : Engines) (batch_pos : ℕ) (c : Claimed) (w : World)
    → InFlight c w.db
    → (w' : World) × (work_on settings engines batch_pos (some c) w ≡ (ok (batch_pos + 1), w'))
      × Settled c (error_of engines c.task_type c) w'.db w'.now
unfolding work_on pending_now swallow ◌>>=◌ pure
work_on-Settled settings engines batch_pos c w h =
    let text = progress_text (batch_pos + 1) (status_counts w.db.rows).pending in
    let (w', e, s) = process-Settled settings engines text c w h in (w', rw e refl, s)

-- On a well-formed table a round never raises and leaves a well-formed table. It either finds
-- nothing eligible and changes no row, or it claims the first eligible task and settles it: done
-- if its engine reports no error, and failed or delayed with the engine's error otherwise.
pub consumer_round-outcome :
    (settings : Settings) (engines : Engines) (locked : ℕ → Bool) (batch_pos : ℕ) (w : World)
    → IsValid w.db
    → (position : ℕ) × (w' : World) × (consumer_round settings engines locked batch_pos w
        ≡ (ok position, w'))
      × IsValid w'.db
      × RoundOutcome engines locked batch_pos w position w'
unfolding consumer_round ◌>>=◌ flatten
consumer_round-outcome settings engines locked batch_pos w v =
    elim (claim_one-outcome locked w.now w.db v) [
      | ClaimOutcome.nothing none_due e ↦ (
        0,
        w,
        rw (claim-eq locked w e) (unfold work_on flattened pure in refl),
        v,
        RoundOutcome.waits none_due refl refl,
      )
      | ClaimOutcome.taken t first e stands v' ↦
          let (w', e', s) =
            work_on-Settled settings engines batch_pos (taken_claim w.now t)
              (record w { db = after_claim w.now t w.db })
              (taken-InFlight w.now w.db t v first.member v') in
          (
            batch_pos + 1,
            w',
            rw (claim-eq locked w e) (unfold flattened in e'),
            s.valid,
            RoundOutcome.works t first refl s,
          )
    ]
