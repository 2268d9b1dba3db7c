-- ===== src/Toggl/Reconcile/Settled.antt =====
-- What a run leaves when no request raises: for each cell one row, with its key and its fields.
use text.Mathlib.TextPositions.{eq_refl}
use gb_automations.Base.{
  String, true, false, Option, none, some, List, [], ◌∷◌, ◌==◌, ◌≡◌, refl, ap, ◌∙◌, arith, All,
  Bool-cases, Option-cases, inl, inr, truthy, strip,
}
use gb_automations.Toggl.Aggregate.{Key, Cell}
use gb_automations.Toggl.Aggregate.Laws.{same_key_eq, same_key_refl}
use gb_automations.Toggl.Reconcile.{
  TimerRow, row_key, Lookups, Fields, Notion, Request, fields, drifted, patched, created, keep_cell,
  drop_row, same_texts,
}
use gb_automations.Toggl.Reconcile.Year.{has_key, find_row, drop_all, settle_cell, settle_cells}

-- The texts that a cell's row gets have no white space around them, and its person is named.
pub record Clean (look : Lookups) (c : Cell) : Type 0 where
  pub hours : (c.seconds == 0) ≡ false
  pub user : strip c.key.user ≡ c.key.user
  pub named : truthy c.key.user ≡ true
  pub project : strip c.key.project ≡ c.key.project
  pub description : strip (fields look c).description ≡ (fields look c).description
  pub project_label :
      strip (fields look c).toggl_project_label ≡ (fields look c).toggl_project_label
  pub user_label : strip (fields look c).toggl_user_label ≡ (fields look c).toggl_user_label

-- A row with the cell's key, which shows the cell's fields.
abbrev pub Shows : Lookups → Cell → TimerRow → Type 0
Shows look c w = (row_key w ≡ some c.key) × (drifted (fields look c) w ≡ false)

-- One row for each cell.
abbrev pub Rows : Lookups → List Cell → List TimerRow → Type 0
Rows look [] [] = Unit
Rows look (c ∷ cs) (w ∷ ws) = Shows look c w × Rows look cs ws
Rows look _ _ = ⊥

same_texts_refl : (ss : List String) → same_texts ss ss ≡ true
same_texts_refl [] = refl
same_texts_refl (s ∷ ss) = rw (eq_refl s, same_texts_refl ss) refl

row_key-created :
    (look : Lookups) (c : Cell) (id : String)
    → Clean look c
    → row_key (created id c.key (fields look c)) ≡ some c.key
unfolding row_key created
row_key-created look c id h = rw (h.user, h.project, h.named) refl

-- A row whose texts are those of the fields has not drifted.
drifted-same :
    (look : Lookups) (c : Cell) (row : TimerRow)
    → Clean look c
    → drifted (fields look c) (patched (fields look c) row) ≡ false
unfolding drifted patched
drifted-same look c row h =
    rw
      (
        h.description,
        h.project_label,
        h.user_label,
        same_texts_refl (fields look c).project,
        same_texts_refl (fields look c).employee,
        eq_refl (fields look c).description,
        eq_refl (fields look c).toggl_project_label,
        eq_refl (fields look c).toggl_user_label,
      )
      (ground arith)

drifted-created :
    (look : Lookups) (c : Cell) (id : String) (key : Key)
    → Clean look c
    → drifted (fields look c) (created id key (fields look c)) ≡ false
unfolding drifted created
drifted-created look c id key h =
    rw
      (
        h.description,
        h.project_label,
        h.user_label,
        same_texts_refl (fields look c).project,
        same_texts_refl (fields look c).employee,
        eq_refl (fields look c).description,
        eq_refl (fields look c).toggl_project_label,
        eq_refl (fields look c).toggl_user_label,
      )
      (ground arith)

row_key-patched : (f : Fields) (row : TimerRow) → row_key (patched f row) ≡ row_key row
unfolding row_key patched
row_key-patched f row = refl

pub has_key-key : (k : Key) (row : TimerRow) → has_key k row ≡ true → row_key row ≡ some k
unfolding has_key
has_key-key k row h = elim (Option-cases (row_key row)) [
  | inl e ↦ ground (arith, rw (has_key, e) at h)
  | inr (l, e) ↦ e ∙ ap some (same_key_eq l k (rw (has_key, e) at h))
]

pub key-has_key : (k : Key) (row : TimerRow) → row_key row ≡ some k → has_key k row ≡ true
unfolding has_key
key-has_key k row h = rw (has_key, h) (same_key_refl k)

find_row-key :
    (k : Key) (rows : List TimerRow) (row : TimerRow)
    → find_row k rows ≡ some row
    → row_key row ≡ some k
unfolding find_row
find_row-key k [] row h = ground arith
find_row-key k (r ∷ rows) row h = elim (Bool-cases (has_key k r)) [
  | inl e ↦ ground (arith, has_key-key k r e)
  | inr e ↦ find_row-key k rows row (rw (find_row, e) at h)
]

module _ (notion : Notion) (look : Lookups) (calm : (r : Request) → notion.raises r ≡ false) where
  pub drop_all-none : (rows : List TimerRow) → (drop_all notion rows).0 ≡ []
  unfolding drop_all drop_row
  drop_all-none [] = refl
  drop_all-none (row ∷ rows) = rw (calm (Request.archive row.id)) (drop_all-none rows)

  keep_cell-Shows :
      (c : Cell) (found : Option TimerRow)
      → Clean look c
      → ((row : TimerRow) → found ≡ some row → row_key row ≡ some c.key)
      → (w : TimerRow) × ((keep_cell notion look c found).0 ≡ w ∷ []) × Shows look c w
  unfolding keep_cell
  keep_cell-Shows c none h k = (
    created (notion.new_id c.key) c.key (fields look c),
    rw (calm (Request.create c.key (fields look c))) refl,
    (
      row_key-created look c (notion.new_id c.key) h,
      drifted-created look c (notion.new_id c.key) c.key h,
    ),
  )
  keep_cell-Shows c (some row) h k = elim (Bool-cases (drifted (fields look c) row)) [
    | inl d ↦ (
      patched (fields look c) row,
      rw (d, calm (Request.patch row.id (fields look c))) refl,
      (row_key-patched (fields look c) row ∙ k row refl, drifted-same look c row h),
    )
    | inr d ↦ (row, rw d refl, (k row refl, d))
  ]

  pub settle_cells-Rows :
      (kept : List TimerRow) (cells : List Cell)
      → All (Clean look) cells
      → Rows look cells (settle_cells notion look kept cells).0
  unfolding settle_cells settle_cell
  settle_cells-Rows kept [] h = tt
  settle_cells-Rows kept (c ∷ cs) h =
      let s = keep_cell-Shows c (find_row c.key kept) h.0 (find_row-key c.key kept) in
      rw (h.0.hours, s.1) (s.2, settle_cells-Rows kept cs h.1)
