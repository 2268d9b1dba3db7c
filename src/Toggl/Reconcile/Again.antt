-- ===== src/Toggl/Reconcile/Again.antt =====
-- The parts of a run over rows that an earlier run left.
use mathlib.Core.List.{append_assoc, append-nil}
use gb_automations.Base.{
  Bool, true, false, none, some, List, [], ◌∷◌, ◌++◌, ◌≡◌, refl, ap, sym, ◌∙◌, arith, any_of, All,
  Bool-cases, Option-cases, inl, inr, if◌then◌else◌,
}
use gb_automations.Toggl.Aggregate.{Key, Cell, same_key}
use gb_automations.Toggl.Aggregate.Distinct.{Distinct}
use gb_automations.Toggl.Reconcile.{TimerRow, row_key, Lookups, Notion, keep_cell}
use gb_automations.Toggl.Reconcile.Year.{
  has_key, is_unkeyed, index_onto, find_row, settle_cell, settle_cells, orphans,
}
use gb_automations.Toggl.Reconcile.Settled.{Clean, Shows, Rows, key-has_key}

-- No row of a list has the key of a cell of another.
abbrev pub Apart : List TimerRow → List Cell → Type 0
Apart rows cells = All (λ (c : Cell). any_of (has_key c.key) rows ≡ false) cells

any_of-snoc :
    (k : Key) (rows : List TimerRow) (w : TimerRow)
    → any_of (has_key k) rows ≡ false
    → has_key k w ≡ false
    → any_of (has_key k) (rows ++ w ∷ []) ≡ false
any_of-snoc k [] w h f = rw f refl
any_of-snoc k (r ∷ rows) w h f = ground (arith, any_of-snoc k rows w)

has_key-apart :
    (k l : Key) (w : TimerRow) → row_key w ≡ some k → same_key k l ≡ false → has_key l w ≡ false
unfolding has_key
has_key-apart k l w e f = rw (has_key, e) f

Apart-snoc :
    (rows : List TimerRow) (w : TimerRow) (k : Key) (cells : List Cell)
    → row_key w ≡ some k
    → All (λ (d : Cell). same_key k d.key ≡ false) cells
    → Apart rows cells
    → Apart (rows ++ w ∷ []) cells
Apart-snoc rows w k [] e d a = tt
Apart-snoc rows w k (c ∷ cs) e d a =
    (any_of-snoc c.key rows w a.0 (has_key-apart k c.key w e d.0), Apart-snoc rows w k cs e d.1 a.1)

later : (b : Bool) {x : Bool} → x ≡ true → (if b then true else x) ≡ true
later true h = refl
later false h = h

unkeyed-none : (u : TimerRow) → is_unkeyed u ≡ true → row_key u ≡ none
unfolding is_unkeyed
unkeyed-none u h = elim (Option-cases (row_key u)) [
  | inl e ↦ e
  | inr (k, e) ↦ ground (arith, rw (is_unkeyed, e) at h)
]

module _ (look : Lookups) where
  -- A row that shows its cell is left as it is.
  settle_cell-shown :
      (notion : Notion) (c : Cell) (w : TimerRow)
      → Clean look c
      → Shows look c w
      → settle_cell notion look c (some w) ≡ (w ∷ [], [])
  unfolding settle_cell keep_cell
  settle_cell-shown notion c w h s = rw (h.hours, s.1) refl

  -- The rows of distinct cells are indexed as they stand, with no duplicate.
  pub index_onto-Rows :
      (cells : List Cell) (ws seen : List TimerRow)
      → Rows look cells ws
      → Distinct cells
      → Apart seen cells
      → index_onto ws seen [] ≡ (seen ++ ws, [])
  unfolding index_onto
  index_onto-Rows [] [] seen r d a = ap (λ rows. (rows, [])) (sym (append-nil seen))
  index_onto-Rows [] (w ∷ ws) seen r d a = elim r [ ]
  index_onto-Rows (c ∷ cs) [] seen r d a = elim r [ ]
  index_onto-Rows (c ∷ cs) (w ∷ ws) seen r d a =
      rw (index_onto, r.0.0, a.0)
        (index_onto-Rows cs ws (seen ++ w ∷ []) r.1 d.1 (Apart-snoc seen w c.key cs r.0.0 d.0 a.1)
          ∙ ap (λ rows. (rows, [])) (append_assoc seen (w ∷ []) ws))

  pub index_onto-unkeyed :
      (us ws : List TimerRow)
      → All (λ u. is_unkeyed u ≡ true) us
      → index_onto (us ++ ws) [] [] ≡ index_onto ws [] []
  unfolding index_onto
  index_onto-unkeyed [] ws h = refl
  index_onto-unkeyed (u ∷ us) ws h =
      rw (index_onto, unkeyed-none u h.0) (index_onto-unkeyed us ws h.1)

  find_row-past :
      (k : Key) (seen rows : List TimerRow)
      → any_of (has_key k) seen ≡ false
      → find_row k (seen ++ rows) ≡ find_row k rows
  unfolding find_row
  find_row-past k [] rows h = refl
  find_row-past k (r ∷ rs) rows h = elim (Bool-cases (has_key k r)) [
    | inl e ↦ ground (arith, e, h)
    | inr e ↦ rw (find_row, e) (find_row-past k rs rows (rw e at h))
  ]

  -- Each cell finds its row, and leaves it.
  pub settle_cells-Rows_again :
      (notion : Notion) (cells : List Cell) (seen ws : List TimerRow)
      → Rows look cells ws
      → All (Clean look) cells
      → Distinct cells
      → Apart seen cells
      → settle_cells notion look (seen ++ ws) cells ≡ (ws, [])
  unfolding settle_cells
  settle_cells-Rows_again notion [] seen [] r h d a = refl
  settle_cells-Rows_again notion [] seen (w ∷ ws) r h d a = elim r [ ]
  settle_cells-Rows_again notion (c ∷ cs) seen [] r h d a = elim r [ ]
  settle_cells-Rows_again notion (c ∷ cs) seen (w ∷ ws) r h d a =
      let found : find_row c.key (seen ++ w ∷ ws) ≡ some w =
        find_row-past c.key seen (w ∷ ws) a.0 ∙ rw (find_row, key-has_key c.key w r.0.0) refl in
      let rest =
        settle_cells-Rows_again notion cs (seen ++ w ∷ []) ws r.1 h.1 d.1
          (Apart-snoc seen w c.key cs r.0.0 d.0 a.1) in
      rw
        (
          settle_cells,
          found,
          settle_cell-shown notion c w h.0 r.0,
          rw (append_assoc seen (w ∷ []) ws) at rest,
        )
        refl

  -- A row of a cell is no orphan.
  pub orphans-Rows :
      (all cells : List Cell) (ws : List TimerRow)
      → Rows look cells ws
      → ((w : TimerRow)
          → any_of (λ (c : Cell). has_key c.key w) cells ≡ true
          → any_of (λ (c : Cell). has_key c.key w) all ≡ true)
      → orphans all ws ≡ []
  unfolding orphans
  orphans-Rows all [] [] r f = refl
  orphans-Rows all [] (w ∷ ws) r f = elim r [ ]
  orphans-Rows all (c ∷ cs) [] r f = elim r [ ]
  orphans-Rows all (c ∷ cs) (w ∷ ws) r f =
      rw (f w (rw (key-has_key c.key w r.0.0) refl))
        (orphans-Rows all cs ws r.1 (λ v m. f v (later (has_key c.key v) m)))
