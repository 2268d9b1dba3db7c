-- ===== src/Toggl/Reconcile/Year.antt =====
-- The run of _reconcile_year over the rows that the window's query gave.
use gb_automations.Base.{
  Bool, true, false, Option, none, some, List, [], ◌∷◌, ◌++◌, ◌==◌, not, any_of, keep_if,
  if◌then◌else◌,
}
use gb_automations.Toggl.Aggregate.{Key, Cell, same_key}
use gb_automations.Toggl.Reconcile.{
  TimerRow, row_key, Lookups, Notion, Request, keep_cell, drop_row, both,
}

unfoldable pub has_key : Key → TimerRow → Bool
has_key k row = elim (row_key row) [ none ↦ false | some l ↦ same_key l k ]

unfoldable pub is_unkeyed : TimerRow → Bool
is_unkeyed row = elim (row_key row) [ none ↦ true | some l ↦ false ]

-- existing_by_key, its rows in order, and duplicate_rows
unfoldable pub index_onto :
    List TimerRow → List TimerRow → List TimerRow → List TimerRow × List TimerRow
unfolding has_key
index_onto [] kept duplicates = (kept, duplicates)
index_onto (row ∷ rows) kept duplicates = elim (row_key row) [
  | none ↦ index_onto rows kept duplicates
  | some k ↦
      if any_of (has_key k) kept
      then index_onto rows kept (duplicates ++ row ∷ [])
      else index_onto rows (kept ++ row ∷ []) duplicates
]

-- existing_by_key.get(key)
unfoldable pub find_row : Key → List TimerRow → Option TimerRow
unfolding has_key
find_row k [] = none
find_row k (row ∷ rows) = let rest = find_row k rows in if has_key k row then some row else rest

unfoldable pub drop_all : Notion → List TimerRow → List TimerRow × List Request
unfolding drop_row
drop_all notion [] = ([], [])
drop_all notion (row ∷ rows) = both (drop_row notion row) (drop_all notion rows)

-- The loop's body for the key of a cell.
unfoldable pub settle_cell :
    Notion → Lookups → Cell → Option TimerRow → List TimerRow × List Request
unfolding keep_cell drop_row
settle_cell notion look c found =
    if c.seconds == 0
    then elim found [ none ↦ ([], []) | some row ↦ drop_row notion row ]
    else keep_cell notion look c found

unfoldable pub settle_cells :
    Notion → Lookups → List TimerRow → List Cell → List TimerRow × List Request
unfolding settle_cell find_row
settle_cells notion look kept [] = ([], [])
settle_cells notion look kept (c ∷ cs) =
    both (settle_cell notion look c (find_row c.key kept)) (settle_cells notion look kept cs)

-- The rows whose key no cell has.
unfoldable pub orphans : List Cell → List TimerRow → List TimerRow
unfolding has_key
orphans cells kept = keep_if (λ row. not (any_of (λ (c : Cell). has_key c.key row) cells)) kept

-- The rows afterwards and the requests. The set of the keys, which has no order, is taken as the cells'
-- keys and then those of the other rows; a key's requests touch no other key's row.
unfoldable pub reconcile_year :
    Notion → Lookups → List Cell → List TimerRow → List TimerRow × List Request
unfolding is_unkeyed index_onto drop_all settle_cells orphans
reconcile_year notion look cells rows =
    let index = index_onto rows [] [] in
    both (both (keep_if is_unkeyed rows, []) (drop_all notion index.1))
      (both (settle_cells notion look index.0 cells) (drop_all notion (orphans cells index.0)))
