-- ===== src/Queue/Claim.antt =====
-- queue.py, claim_one: the oldest eligible pending row, marked in_progress.
pub mod Laws
pub mod Fifo
use gb_automations.Base.{
  ℕ, ◌+◌, Bool, true, false, Option, none, some, List, [], ◌∷◌, Tx, pure, ◌>>=◌, ◌>>◌, ◌&&◌, ◌||◌,
  not, ltb, leb, ◌==◌, if◌then◌else◌,
}
use gb_automations.Schema.{SyncTask, Db, in_progress, is_pending, update}

-- status = 'pending' AND next_attempt_at <= now(), and SKIP LOCKED: a row that another open
-- transaction has locked is passed over.
unfoldable pub eligible : (ℕ → Bool) → ℕ → SyncTask → Bool
eligible locked now r = is_pending r.status && leb r.next_attempt_at now && not (locked r.id)

-- ORDER BY next_attempt_at ASC, id ASC
unfoldable pub earlier : SyncTask → SyncTask → Bool
earlier r s =
    ltb r.next_attempt_at s.next_attempt_at
    || (r.next_attempt_at == s.next_attempt_at && ltb r.id s.id)

unfoldable pub first_of_two : SyncTask → Option SyncTask → SyncTask
unfolding earlier
first_of_two r none = r
first_of_two r (some s) = if earlier s r then s else r

-- LIMIT 1
unfoldable pub oldest : (SyncTask → Bool) → List SyncTask → Option SyncTask
unfolding first_of_two
oldest p [] = none
oldest p (r ∷ rows) = let rest = oldest p rows in if p r then some (first_of_two r rest) else rest

-- The attributes that `claim_one` sets.
abbrev pub claimed : ℕ → ℕ → SyncTask → SyncTask
claimed now attempts r = record r {
  status = in_progress;
  started_at = some now;
  attempts = attempts;
}

-- The flush of the changed row, if there is one.
unfoldable pub claim_row : ℕ → Option SyncTask → Tx Db (Option SyncTask)
claim_row now none = pure none
claim_row now (some task) = do
  update now (λ r. r.id == task.id) (claimed now (task.attempts + 1))
  pure (some (claimed now (task.attempts + 1) task))

unfoldable pub claim_one : (ℕ → Bool) → ℕ → Tx Db (Option SyncTask)
claim_one locked now db = claim_row now (oldest (eligible locked now) db.rows) db
