-- ===== src/Leveranse/Grounds.antt =====
-- The grounds on which a recheck may write a status.
use gb_automations.Base.{
  ℕ, ◌≤◌, ◌<◌, ltb, String, true, false, Option, none, some, List, ◌≡◌, ◌≢◌, arith, In, Bool-cases,
  inl, inr, ◌==◌,
}
use gb_automations.Worker.Engines.{returned}
use gb_automations.Leveranse.{
  Board, Statuses, is_manual, find_active_korreksjonsrunde, list_korreksjonsrunder, round_status,
  deliverable_status,
}

-- The status that a round's corrections call for, one of them at least.
pub data ForRound (total ticked : ℕ) : String → Type 0 where
  none_ticked : ticked ≡ 0 → ForRound total ticked "Klar til oppstart"
  some_ticked : ticked ≢ 0 → ticked < total → ForRound total ticked "Under arbeid"
  all_ticked : ticked ≢ 0 → total ≤ ticked → ForRound total ticked "Oppgaver ferdig"

-- The status that the corrections of its active round call for on a deliverable, one of them ticked off.
pub data ForDeliverable (total ticked : ℕ) : String → Type 0 where
  some_ticked : ticked ≢ total → ForDeliverable total ticked "Under arbeid"
  all_ticked : ticked ≡ total → ForDeliverable total ticked "Oppgaver ferdig"

pub round_status-ForRound : (total ticked : ℕ) → ForRound total ticked (round_status total ticked)
unfolding round_status
round_status-ForRound total ticked = elim (Bool-cases (ticked == 0)) [
  | inl z ↦ rw z (ForRound.none_ticked (ground (arith, z)))
  | inr z ↦ elim (Bool-cases (ltb ticked total)) [
    | inl l ↦ rw (z, l) (ForRound.some_ticked (λ e. ground (arith, z, e)) (ground (arith, l)))
    | inr l ↦ rw (z, l) (ForRound.all_ticked (λ e. ground (arith, z, e)) (ground (arith, l)))
  ]
]

pub deliverable_status-ForDeliverable :
    (total ticked : ℕ) → ForDeliverable total ticked (deliverable_status total ticked)
unfolding deliverable_status
deliverable_status-ForDeliverable total ticked = elim (Bool-cases (ticked == total)) [
  | inl e ↦ rw e (ForDeliverable.all_ticked (ground (arith, e)))
  | inr e ↦ rw e (ForDeliverable.some_ticked (λ h. ground (arith, e, h)))
]

-- Why a status may be written on a page by a recheck of a deliverable.
pub data Grounds (board : Board) (page : String) : String → String → Type 0 where
  -- the page is a round of the deliverable, with corrections
  a_round :
      (rounds : List (String × ℕ)) (r : String × ℕ) (total ticked : ℕ)
      → list_korreksjonsrunder board page ≡ returned rounds
      → In r rounds
      → board.count_korreksjon_children r.0 ≡ returned (total, ticked)
      → total ≢ 0
      → {name : String} → ForRound total ticked name
      → Grounds board page r.0 name
  -- the deliverable, by the corrections of its active round, one of them ticked off
  corrected :
      (r : String × ℕ) (total ticked : ℕ)
      → find_active_korreksjonsrunde board page ≡ returned (some r)
      → board.count_korreksjon_children r.0 ≡ returned (total, ticked)
      → total ≢ 0
      → ticked ≢ 0
      → {name : String} → ForDeliverable total ticked name
      → Grounds board page page name
  -- the deliverable, with no round and a real version
  clean_upload :
      find_active_korreksjonsrunde board page ≡ returned none
      → board.has_real_version page ≡ true
      → Grounds board page page "Ferdig"

-- A page keeps its status, or has a new one for which there are grounds, and then its status was
-- not set by hand.
pub data Change (board : Board) (page : String) (st : Statuses) (q : String)
    : Option String → Type 0 where
  kept : {new : Option String} → new ≡ st q → Change board page st q new
  changed :
      {new : Option String} (name : String)
      → Grounds board page q name
      → is_manual (st q) ≡ false
      → new ≡ some name
      → Change board page st q new

abbrev pub Changes : Board → String → Statuses → Statuses → Type 0
Changes board page st st' = (q : String) → Change board page st q (st' q)
