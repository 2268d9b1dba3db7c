-- ===== src/Leveranse.antt =====
-- sync/sync_leveranse_status.py: the status of a deliverable and of its rounds of corrections, from
-- the corrections that are ticked off, and set_oppgave_status of clients/notion.py. What Notion and
-- Frame.io answer is a parameter; the Status column is the state.
pub mod Grounds
pub mod Laws
pub mod Active
pub mod Settled
use gb_automations.Base.{
  ℕ, String, ◌<>◌, Bool, true, false, Option, none, some, List, [], ◌∷◌, ◌≡◌, ◌&&◌, ◌||◌, not, leb,
  ltb, ◌==◌, if◌then◌else◌, truthy, str_eq, same_text,
}
use gb_automations.Worker.Engines.{Attempt, returned, raised, Exception}

-- A sub-row of a deliverable, as the query returns it. `in_archive` is archived or in_trash, and
-- `is_runde` tells that its Type is Korreksjonsrunde. A round's number is a whole one.
pub record SubRow : Type 0 where
  pub id : String
  pub in_archive : Bool
  pub is_runde : Bool
  pub runde : Option ℕ

-- The answers during one recheck.
pub record Board : Type 0 where
  -- bool(settings.oppgaver_db_id)
  pub has_db : Bool
  -- the query sorted by Runde descending, and the one sorted ascending with all its pages
  pub newest_first : String → Attempt (List SubRow)
  pub oldest_first : String → Attempt (List SubRow)
  -- count_korreksjon_children: (total, done)
  pub count_korreksjon_children : String → Attempt (ℕ × ℕ)
  pub has_real_version : String → Bool
  -- the exception of step 1, of the read before a write and of the PATCH, if it raises
  pub status_error : String → Option Exception
  pub read_error : String → Option Exception
  pub patch_error : String → Option Exception

-- The Status column, by page.
abbrev pub Statuses : Type 0
Statuses = String → Option String

pub data Action : Type 0 where
  written unchanged skipped_manual skipped_no_round skipped_no_children failed : Action

-- status in MANUAL_DELIVERABLE_STATUSES
unfoldable pub is_manual : Option String → Bool
is_manual status = same_text status (some "Trenger avklaring") || same_text status (some "Utgår")

abbrev pub write : String → String → Statuses → Statuses
write page name st q = if str_eq q page then some name else st q

-- PATCH, after the three guards
unfoldable pub guarded_write :
    Option Exception → String → String → Statuses → Attempt Action × Statuses
unfolding is_manual
guarded_write patch page name st =
    if is_manual (st page)
    then (returned skipped_manual, st)
    else if same_text (st page) (some name)
    then (returned unchanged, st)
    else elim patch [ none ↦ (returned written, write page name st) | some e ↦ (raised e, st) ]

-- The write, by the exceptions of the read and of the PATCH.
unfoldable pub after_read :
    Option Exception → Option Exception → String → String → Statuses → Attempt Action × Statuses
unfolding guarded_write
after_read none patch page name st = guarded_write patch page name st
after_read (some e) patch page name st = (raised e, st)

unfoldable pub set_oppgave_status : Board → String → String → Statuses → Attempt Action × Statuses
unfolding after_read
set_oppgave_status board page name st =
    after_read (board.read_error page) (board.patch_error page) page name st

-- The first row of a round that has a number.
unfoldable pub first_round : List SubRow → Option (String × ℕ)
first_round [] = none
first_round (row ∷ rows) =
    let rest = first_round rows in
    if row.in_archive || not row.is_runde
    then rest
    else elim row.runde [ none ↦ rest | some n ↦ some (row.id, n) ]

unfoldable pub find_active_korreksjonsrunde : Board → String → Attempt (Option (String × ℕ))
unfolding first_round
find_active_korreksjonsrunde board page =
    if board.has_db
    then (elim (board.newest_first page) [
      | returned rows ↦ returned (first_round rows)
      | raised e ↦ raised e
    ])
    else returned none

-- rounds.sort(key=lambda x: x[1]), which keeps the order of equal rounds
unfoldable pub insert_round : String × ℕ → List (String × ℕ) → List (String × ℕ)
insert_round r [] = r ∷ []
insert_round r (s ∷ rounds) =
    let rest = insert_round r rounds in if leb r.1 s.1 then r ∷ s ∷ rounds else s ∷ rest

unfoldable pub all_rounds : List SubRow → List (String × ℕ)
unfolding insert_round
all_rounds [] = []
all_rounds (row ∷ rows) =
    let rest = all_rounds rows in
    if row.in_archive || not row.is_runde || not (truthy row.id)
    then rest
    else elim row.runde [ none ↦ rest | some n ↦ insert_round (row.id, n) rest ]

unfoldable pub list_korreksjonsrunder : Board → String → Attempt (List (String × ℕ))
unfolding all_rounds
list_korreksjonsrunder board page =
    if board.has_db
    then (elim (board.oldest_first page) [
      | returned rows ↦ returned (all_rounds rows)
      | raised e ↦ raised e
    ])
    else returned []

-- The status of a round with `total` corrections, one at least, of which `ticked` are done.
unfoldable pub round_status : ℕ → ℕ → String
round_status total ticked =
    if ticked == 0
    then "Klar til oppstart"
    else if ltb ticked total
    then "Under arbeid"
    else "Oppgaver ferdig"

-- One round of the loop: an exception is logged, and the loop moves on.
unfoldable pub write_round : Board → String → Attempt (ℕ × ℕ) → Statuses → Statuses
unfolding round_status set_oppgave_status
write_round board page (raised e) st = st
write_round board page (returned (total, ticked)) st =
    if total == 0 then st else (set_oppgave_status board page (round_status total ticked) st).1

unfoldable pub write_rounds : Board → List (String × ℕ) → Statuses → Statuses
unfolding write_round
write_rounds board [] st = st
write_rounds board (r ∷ rounds) st =
    write_rounds board rounds (write_round board r.0 (board.count_korreksjon_children r.0) st)

-- The loop over the rounds; if their listing raised, it is logged, and there is no loop.
unfoldable pub write_listed : Board → Attempt (List (String × ℕ)) → Statuses → Statuses
unfolding write_rounds
write_listed board (returned rounds) st = write_rounds board rounds st
write_listed board (raised e) st = st

unfoldable pub write_round_statuses : Board → String → Statuses → Statuses
unfolding write_listed list_korreksjonsrunder
write_round_statuses board page st = write_listed board (list_korreksjonsrunder board page) st

-- set_deliverable_status under `except Exception`
unfoldable pub settle : Attempt Action × Statuses → Action × Statuses
settle (returned a, st) = (a, st)
settle (raised e, st) = (failed, st)

-- target = STATUS_OPPGAVER_FERDIG if done == total else STATUS_UNDER_ARBEID
unfoldable pub deliverable_status : ℕ → ℕ → String
deliverable_status total ticked = if ticked == total then "Oppgaver ferdig" else "Under arbeid"

-- Step 3 and 4, by the counts of the active round.
unfoldable pub by_counts : Board → String → Attempt (ℕ × ℕ) → Statuses → Action × Statuses
unfolding settle deliverable_status set_oppgave_status
by_counts board page (raised e) st = (failed, st)
by_counts board page (returned (total, ticked)) st =
    if total == 0
    then (skipped_no_children, st)
    else if ticked == 0
    then (skipped_no_children, st)
    else settle (set_oppgave_status board page (deliverable_status total ticked) st)

-- Step 2, by the active round.
unfoldable pub by_round :
    Board → String → Attempt (Option (String × ℕ)) → Statuses → Action × Statuses
unfolding by_counts settle set_oppgave_status
by_round board page (raised e) st = (failed, st)
by_round board page (returned none) st =
    if board.has_real_version page
    then settle (set_oppgave_status board page "Ferdig" st)
    else (skipped_no_round, st)
by_round board page (returned (some r)) st =
    by_counts board page (board.count_korreksjon_children r.0) st

-- Step 1, by the exception of reading the deliverable's status.
unfoldable pub by_status : Board → String → Option Exception → Statuses → Action × Statuses
unfolding by_round is_manual find_active_korreksjonsrunde
by_status board page (some e) st = (failed, st)
by_status board page none st =
    if is_manual (st page)
    then (skipped_manual, st)
    else by_round board page (find_active_korreksjonsrunde board page) st

unfoldable pub recheck_leveranse_status : Board → String → Statuses → Action × Statuses
unfolding by_status write_round_statuses
recheck_leveranse_status board page st =
    by_status board page (board.status_error page) (write_round_statuses board page st)
