-- ===== src/Leveranse/Settled.antt =====
-- What a recheck that nothing disturbs leaves.
use gb_automations.Base.{String, true, false, none, ◌≡◌}
use gb_automations.Leveranse.{Board, Statuses, is_manual, write_round_statuses}
use gb_automations.Leveranse.Grounds.{Grounds}

module _ (board : Board) (page : String) (st : Statuses) (db : board.has_db ≡ true)
    (asks : board.status_error page ≡ none) (reads : board.read_error page ≡ none)
    (patches : board.patch_error page ≡ none) (m : is_manual (st page) ≡ false) where
  abbrev after_rounds : Statuses
  after_rounds = write_round_statuses board page st
