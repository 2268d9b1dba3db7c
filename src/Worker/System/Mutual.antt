-- ===== src/Worker/System/Mutual.antt =====
-- Every step keeps the system safe.
use mathlib.Core.Path.{subst}
use gb_automations.Base.{
  ℕ, Bool, true, some, List, ◌∷◌, ◌≡◌, ◌≢◌, refl, sym, ◌+◌, arith, All, All-imp, ok,
}
use gb_automations.Schema.{SyncTask, Db, is_pending}
use gb_automations.Schema.Valid.{IsValid}
use gb_automations.Queue.Owed.{enqueue-IsValid}
use gb_automations.Queue.Claim.{claim_one, claimed, eligible}
use gb_automations.Queue.Claim.Fifo.{IsFirst}
use gb_automations.Queue.Claim.Laws.{ClaimOutcome, claim_one-outcome, after_claim}
use gb_automations.Queue.Outcome.{find_task}
use gb_automations.Queue.Outcome.Find.{find_task-update_rows}
use gb_automations.Queue.Outcome.Laws.{mark_done_lem, mark_failed_lem}
use gb_automations.Worker.World.{Claimed, flatten, max_attempts, base_backoff_seconds}
use gb_automations.Worker.Settles.Steps.{InFlight, enqueue-InFlight}
use gb_automations.Worker.Consumer.Laws.{taken-InFlight, taken_claim, find_task-of_In}
use gb_automations.Worker.System.{System, Step, Reach}
use gb_automations.Worker.System.Exclusive.{
  Apart, IsSafe, Succeeds-at, still, All-release, Apart-release, held-InFlight, done-still,
  failed-still, retry-still, resolve-still,
}

eligible-is_pending :
    (locked : ℕ → Bool) (now : ℕ) (r : SyncTask)
    → eligible locked now r ≡ true
    → is_pending r.status ≡ true
unfolding eligible
eligible-is_pending locked now r h = ground arith

module _ (locked : ℕ → Bool) (now : ℕ) (db : Db) (t : SyncTask) (v : IsValid db)
    (first : IsFirst (eligible locked now) db.rows t) where
  -- An eligible row is none that a consumer holds.
  held_ne : (d : Claimed) → InFlight d db → d.id ≢ t.id
  held_ne d h e =
      let found : find_task d.id db.rows ≡ some t =
        subst (λ (i : ℕ). find_task i db.rows ≡ some t) (sym e)
          (find_task-of_In first.member v.distinct) in
      ground (arith, found, h.found, h.busy, eligible-is_pending locked now t first.passes)

  claim-still :
      (d : Claimed)
      → IsValid (after_claim now t db)
      → InFlight d db
      → InFlight d (after_claim now t db)
  claim-still d v' h = still d db (after_claim now t db) h v' (
      ground (
        arith,
        held_ne d h,
        h.found,
        find_task-update_rows now t.id d.id (claimed now (t.attempts + 1)) (λ r. refl) db.rows,
      ))

  taken-IsSafe :
      (held : List Claimed)
      → IsValid (after_claim now t db)
      → All (λ (d : Claimed). InFlight d db) held
      → Apart held
      → IsSafe (record { db = after_claim now t db; now = now; held = taken_claim now t ∷ held })
  unfolding flatten
  taken-IsSafe held v' busy apart = record {
    valid = v';
    in_flight = (
      taken-InFlight now db t v first.member v',
      All-imp (λ (d : Claimed). InFlight d db) (λ (d : Claimed). InFlight d (after_claim now t db))
          (λ d. claim-still d v') held busy,
    );
    apart = (
      All-imp (λ (d : Claimed). InFlight d db) (λ (d : Claimed). d.id ≢ t.id) held_ne held busy,
      apart,
    );
  }

claims-IsSafe :
    (locked : ℕ → Bool) (s : System) (task : SyncTask) (db' : Db)
    → IsSafe s
    → claim_one locked s.now s.db ≡ ok (some task, db')
    → IsSafe (record s { db = db'; held = flatten task ∷ s.held })
claims-IsSafe locked s task db' safe e = elim (claim_one-outcome locked s.now s.db safe.valid) [
  | ClaimOutcome.nothing none_due e' ↦ absurd (cc (e, e'))
  | ClaimOutcome.taken t first e' stands v' ↦
      let same : after_claim s.now t s.db ≡ db' = cc (e, e') in
      let row : claimed s.now (t.attempts + 1) t ≡ task = cc (e, e') in
      subst (λ (x : SyncTask). IsSafe (record s { db = db'; held = flatten x ∷ s.held })) row
        (subst (λ (x : Db). IsSafe (record s { db = x; held = taken_claim s.now t ∷ s.held })) same
          (taken-IsSafe locked s.now s.db t safe.valid first s.held v' safe.in_flight safe.apart))
]

-- Every step keeps the table well-formed, every held task in progress, and the held tasks apart.
pub Step-IsSafe : {s t : System} → Step s t → IsSafe s → IsSafe t
Step-IsSafe {s} (Step.claims locked task db' e q) safe =
    rw q (claims-IsSafe locked s task db' safe e)
Step-IsSafe {s} (Step.enqueues r n db' e q) safe = rw q (record {
  valid = enqueue-IsValid s.now r s.db {n = n} safe.valid e;
  in_flight =
      All-imp (λ (d : Claimed). InFlight d s.db) (λ (d : Claimed). InFlight d db')
        (λ d h. enqueue-InFlight d s.now r s.db db' {n = n} h e) s.held safe.in_flight;
  apart = safe.apart;
})
Step-IsSafe {s} (Step.resolves c project n db' m keyed e q) safe =
    let at = λ (d : Claimed).
      resolve-still s.now c d project s.db db' {n = n} (held-InFlight safe m) keyed e in
    rw q (record {
      valid = (at c).0;
      in_flight =
          All-imp (λ (d : Claimed). InFlight d s.db) (λ (d : Claimed). InFlight d db')
            (λ d. (at d).1) s.held safe.in_flight;
      apart = safe.apart;
    })
Step-IsSafe {s} (Step.succeeds c n db' m e q) safe =
    let hc = held-InFlight safe m in
    rw q (record {
      valid = (Succeeds-at (mark_done_lem s.now c.id s.db hc.row hc.valid hc.found).1 e).0;
      in_flight =
          All-release (λ (d : Claimed). InFlight d db') c s.held
            (All-imp (λ (d : Claimed). InFlight d s.db)
              (λ (d : Claimed). d.id ≢ c.id → InFlight d db')
              (λ d h. done-still s.now c d s.db db' {n = n} hc e h) s.held safe.in_flight);
      apart = Apart-release c s.held safe.apart;
    })
Step-IsSafe {s} (Step.fails c error b db' m e q) safe =
    let hc = held-InFlight safe m in
    rw q (record {
      valid =
          (Succeeds-at
            (mark_failed_lem s.now c.id c.attempts error max_attempts base_backoff_seconds s.db
              hc.row hc.valid hc.found (rw hc.busy refl))
            e).0;
      in_flight =
          All-release (λ (d : Claimed). InFlight d db') c s.held
            (All-imp (λ (d : Claimed). InFlight d s.db)
              (λ (d : Claimed). d.id ≢ c.id → InFlight d db')
              (λ d h. failed-still s.now c d error s.db db' {b = b} hc e h) s.held safe.in_flight);
      apart = Apart-release c s.held safe.apart;
    })
Step-IsSafe {s} (Step.retries thread_id n db' e q) safe =
    let (v, kept) = retry-still s.now thread_id s.db db' {n = n} safe.valid e in
    rw q (record {
      valid = v;
      in_flight =
          All-imp (λ (d : Claimed). InFlight d s.db) (λ (d : Claimed). InFlight d db') kept s.held
            safe.in_flight;
      apart = safe.apart;
    })
Step-IsSafe {s} (Step.ticks later le q) safe =
    rw q (record { valid = safe.valid; in_flight = safe.in_flight; apart = safe.apart })

-- Whatever the interleaving, a safe state leads to safe states only: no task is ever held by
-- two consumers at once, and every held task is in progress.
pub Reach-IsSafe : {s t : System} → IsSafe s → Reach s t → IsSafe t
Reach-IsSafe safe Reach.start = safe
Reach-IsSafe safe (Reach.next r st) = Step-IsSafe st (Reach-IsSafe safe r)
