-- ===== src/Toggl/Aggregate/Laws.antt =====
-- The cells hold what the rows hold, key by key, and no hour is lost.
use text.Mathlib.TextPositions.{eq_refl}
use gb_automations.Base.{
  ℕ, ◌+◌, true, false, none, some, List, [], ◌∷◌, ◌≡◌, refl, arith, if◌then◌else◌, Bool-cases, inl,
  inr, str_eq_iff, Option-cases,
}
use gb_automations.Toggl.Aggregate.{
  Locale, Caches, CsvRow, Key, Cell, same_key, row_cell, add_cell, add_row, aggregate_onto,
  aggregate,
}

pub same_key_eq : (k l : Key) → same_key k l ≡ true → k ≡ l
unfolding same_key
same_key_eq k l h = ground (arith, str_eq_iff k.user l.user, str_eq_iff k.project l.project)

pub same_key_refl : (k : Key) → same_key k k ≡ true
unfolding same_key
same_key_refl k = rw (eq_refl k.user, eq_refl k.project) (ground arith)

same_key_apart : (c e k : Key) → same_key c e ≡ false → same_key c k ≡ true → same_key e k ≡ false
same_key_apart c e k h f = elim (Bool-cases (same_key e k)) [
  | inr g ↦ g
  | inl g ↦ rw (same_key_eq e k g) (rw (same_key_eq c k f, same_key_eq e k g) at h)
]

-- The seconds and the entries of the cell with a key.
abbrev pub seconds_at : Key → List Cell → ℕ
seconds_at k [] = 0
seconds_at k (c ∷ cs) = let rest = seconds_at k cs in if same_key c.key k then c.seconds else rest

abbrev pub entries_at : Key → List Cell → ℕ
entries_at k [] = 0
entries_at k (c ∷ cs) =
    let rest = entries_at k cs in if same_key c.key k then c.entry_count else rest

abbrev pub if_key : Key → Cell → ℕ → ℕ
if_key k e n = if same_key e.key k then n else 0

at-add_cell :
    (k : Key) (e : Cell) (cs : List Cell)
    → (seconds_at k (add_cell e cs) ≡ seconds_at k cs + if_key k e e.seconds)
      × (entries_at k (add_cell e cs) ≡ entries_at k cs + if_key k e e.entry_count)
unfolding add_cell
at-add_cell k e [] = (omega arith, omega arith)
at-add_cell k e (c ∷ cs) = elim (Bool-cases (same_key c.key e.key)) [
  | inl h ↦ elim (Bool-cases (same_key e.key k)) [
    | inl f ↦ rw (h, same_key_eq c.key e.key h, f) (omega arith, omega arith)
    | inr f ↦ rw (h, same_key_eq c.key e.key h, f) (omega arith, omega arith)
  ]
  | inr h ↦ elim (Bool-cases (same_key c.key k)) [
    | inl f ↦ rw (h, f, same_key_apart c.key e.key k h f) (omega arith, omega arith)
    | inr f ↦ rw (h, f) (at-add_cell k e cs)
  ]
]

-- What the rows that count add up to, by a measure of their cells.
module _ (locale : Locale) (caches : Caches) where
  abbrev pub counted : (Cell → ℕ) → List CsvRow → ℕ
  counted f [] = 0
  counted f (row ∷ rows) =
      elim (row_cell locale caches row) [ none ↦ 0 | some e ↦ f e ] + counted f rows

  pub add_row-skip :
      (row : CsvRow) (cells : List Cell) (n : ℕ)
      → row_cell locale caches row ≡ none
      → add_row locale caches row (cells, n) ≡ (cells, n + 1)
  unfolding add_row
  add_row-skip row cells n h = rw (h, add_row) refl

  pub add_row-count :
      (row : CsvRow) (cells : List Cell) (n : ℕ) (e : Cell)
      → row_cell locale caches row ≡ some e
      → add_row locale caches row (cells, n) ≡ (add_cell e cells, n)
  unfolding add_row
  add_row-count row cells n e h = rw (h, add_row) refl

  at-aggregate_onto :
      (k : Key) (rows : List CsvRow) (cells : List Cell) (n : ℕ)
      → (seconds_at k (aggregate_onto locale caches rows (cells, n)).0
          ≡ seconds_at k cells + counted (λ e. if_key k e e.seconds) rows)
        × (entries_at k (aggregate_onto locale caches rows (cells, n)).0
            ≡ entries_at k cells + counted (λ e. if_key k e e.entry_count) rows)
  unfolding aggregate_onto
  at-aggregate_onto k [] cells n = (omega arith, omega arith)
  at-aggregate_onto k (row ∷ rows) cells n = elim (Option-cases (row_cell locale caches row)) [
    | inl h ↦
        let r = at-aggregate_onto k rows cells (n + 1) in
        rw (aggregate_onto, add_row-skip row cells n h, h) (omega (arith, r.0), omega (arith, r.1))
    | inr (e, h) ↦
        let r = at-aggregate_onto k rows (add_cell e cells) n in
        let a = at-add_cell k e cells in
        rw (aggregate_onto, add_row-count row cells n e h, h)
          (omega (arith, r.0, a.0), omega (arith, r.1, a.1))
  ]

  -- The cell of a key has the seconds and the number of just those rows that count and have the key.
  pub aggregate-at :
      (rows : List CsvRow) (k : Key)
      → (seconds_at k (aggregate locale caches rows).0 ≡ counted (λ e. if_key k e e.seconds) rows)
        × (entries_at k (aggregate locale caches rows).0
            ≡ counted (λ e. if_key k e e.entry_count) rows)
  unfolding aggregate
  aggregate-at rows k =
      let r = at-aggregate_onto k rows [] 0 in (omega (arith, r.0), omega (arith, r.1))
