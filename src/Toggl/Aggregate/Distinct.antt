-- ===== src/Toggl/Aggregate/Distinct.antt =====
-- The cells have hours, and each key has one cell.
use gb_automations.Base.{
  ℕ, ◌+◌, false, some, List, [], ◌∷◌, ◌==◌, ◌≡◌, arith, All, Bool-cases, Option-cases, inl, inr,
}
use gb_automations.Toggl.Aggregate.{
  Locale, Caches, CsvRow, Key, Cell, same_key, row_cell, add_cell, aggregate_onto, aggregate,
}
use gb_automations.Toggl.Aggregate.Laws.{add_row-skip, add_row-count}

-- No two cells have a key in common.
abbrev pub Distinct : List Cell → Type 0
Distinct [] = Unit
Distinct (c ∷ cs) = All (λ (d : Cell). same_key c.key d.key ≡ false) cs × Distinct cs

abbrev pub HasHours : Cell → Type 0
HasHours c = (c.seconds == 0) ≡ false

add_cell-other :
    (k : Key) (e : Cell) (cs : List Cell)
    → same_key k e.key ≡ false
    → All (λ (d : Cell). same_key k d.key ≡ false) cs
    → All (λ (d : Cell). same_key k d.key ≡ false) (add_cell e cs)
unfolding add_cell
add_cell-other k e [] h a = (h, tt)
add_cell-other k e (c ∷ cs) h a = elim (Bool-cases (same_key c.key e.key)) [
  | inl f ↦ rw (add_cell, f) (a.0, a.1)
  | inr f ↦ rw (add_cell, f) (a.0, add_cell-other k e cs h a.1)
]

add_cell-Distinct : (e : Cell) (cs : List Cell) → Distinct cs → Distinct (add_cell e cs)
unfolding add_cell
add_cell-Distinct e [] d = (tt, tt)
add_cell-Distinct e (c ∷ cs) d = elim (Bool-cases (same_key c.key e.key)) [
  | inl f ↦ rw (add_cell, f) (d.0, d.1)
  | inr f ↦ rw (add_cell, f) (add_cell-other c.key e cs f d.0, add_cell-Distinct e cs d.1)
]

add_cell-HasHours :
    (e : Cell) (cs : List Cell) → HasHours e → All HasHours cs → All HasHours (add_cell e cs)
unfolding add_cell
add_cell-HasHours e [] h a = (h, tt)
add_cell-HasHours e (c ∷ cs) h a = elim (Bool-cases (same_key c.key e.key)) [
  | inl f ↦ rw (add_cell, f) (ground (arith, a.0), a.1)
  | inr f ↦ rw (add_cell, f) (a.0, add_cell-HasHours e cs h a.1)
]

row_cell-HasHours :
    (locale : Locale) (caches : Caches) (row : CsvRow) (e : Cell)
    → row_cell locale caches row ≡ some e
    → HasHours e
unfolding row_cell
row_cell-HasHours locale caches row e h = ground arith

module _ (locale : Locale) (caches : Caches) where
  aggregate_onto-Distinct :
      (rows : List CsvRow) (cells : List Cell) (n : ℕ)
      → Distinct cells
      → All HasHours cells
      → Distinct (aggregate_onto locale caches rows (cells, n)).0
        × All HasHours (aggregate_onto locale caches rows (cells, n)).0
  unfolding aggregate_onto
  aggregate_onto-Distinct [] cells n d h = (d, h)
  aggregate_onto-Distinct (row ∷ rows) cells n d h =
      elim (Option-cases (row_cell locale caches row)) [
        | inl s ↦
            rw (aggregate_onto, add_row-skip locale caches row cells n s)
              (aggregate_onto-Distinct rows cells (n + 1) d h)
        | inr (e, s) ↦
            rw (aggregate_onto, add_row-count locale caches row cells n e s)
              (aggregate_onto-Distinct rows (add_cell e cells) n (add_cell-Distinct e cells d)
                (add_cell-HasHours e cells (row_cell-HasHours locale caches row e s) h))
      ]

  -- The aggregation gives each key one cell, and no cell without hours.
  pub aggregate-Distinct :
      (rows : List CsvRow)
      → Distinct (aggregate locale caches rows).0 × All HasHours (aggregate locale caches rows).0
  unfolding aggregate
  aggregate-Distinct rows = aggregate_onto-Distinct rows [] 0 tt tt
