-- ===== src/Tests/OnLeveranse.antt =====
-- The laws of a recheck on a concrete board.
use gb_automations.Base.{
  ℕ, none, some, [], ◌∷◌, ◌≡◌, refl, arith, true, false, str_eq, if◌then◌else◌, All, ◌≤◌,
}
use gb_automations.Worker.Engines.{returned}
use gb_automations.Leveranse.{Board, SubRow, Statuses, recheck_leveranse_status, first_round}
use gb_automations.Leveranse.Laws.{recheck_leveranse_status-Changes}
use gb_automations.Leveranse.Grounds.{Change}
use gb_automations.Leveranse.Active.{first_round_highest, NewestFirst, is_live}

abbrev second : SubRow
second = record { id = "r2"; in_archive = false; is_runde = true; runde = some 2 }

abbrev first : SubRow
first = record { id = "r1"; in_archive = false; is_runde = true; runde = some 1 }

abbrev board : Board
board = record {
  has_db = true;
  newest_first = λ _. returned (second ∷ first ∷ []);
  oldest_first = λ _. returned (first ∷ second ∷ []);
  count_korreksjon_children = λ _. returned (3, 2);
  has_real_version = λ _. true;
  status_error = λ _. none;
  read_error = λ _. none;
  patch_error = λ _. none;
}

abbrev statuses : Statuses
statuses page = if str_eq page "r1" then some "Utgår" else some "Klar til oppstart"

-- The round that was set by hand is left; the other one and the deliverable follow the counts.
recheck_of_board :
    ((recheck_leveranse_status board "d" statuses).1 "d" ≡ some "Under arbeid")
    × ((recheck_leveranse_status board "d" statuses).1 "r2" ≡ some "Under arbeid")
    × ((recheck_leveranse_status board "d" statuses).1 "r1" ≡ some "Utgår")
unfolding recheck_leveranse_status
recheck_of_board = (refl, refl, refl)

recheck_leveranse_status-Changes_example :
    Change board "d" statuses "r2" ((recheck_leveranse_status board "d" statuses).1 "r2")
recheck_leveranse_status-Changes_example = recheck_leveranse_status-Changes board "d" statuses "r2"

sub_rows-NewestFirst : NewestFirst (second ∷ first ∷ [])
sub_rows-NewestFirst = (((λ n m e f. ground arith), tt), (tt, tt))

first_round_highest_run :
    All
      (λ (s : SubRow). is_live s ≡ true → (m : ℕ) → s.runde ≡ some m → m ≤ 2)
      (second ∷ first ∷ [])
unfolding first_round
first_round_highest_run =
    first_round_highest (second ∷ first ∷ []) ("r2", 2) sub_rows-NewestFirst refl
