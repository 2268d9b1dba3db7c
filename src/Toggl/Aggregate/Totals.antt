-- ===== src/Toggl/Aggregate/Totals.antt =====
-- Nothing is lost on the way to the cells, and the check of the hours expects the same cells.
use gb_automations.Base.{
  ℕ, ◌+◌, String, true, false, Option, none, some, List, [], ◌∷◌, ◌≡◌, refl, ap, sym, ◌∙◌, arith,
  if◌then◌else◌, Bool-cases, inl, inr, length, Option-cases, truthy, or_text, ◌==◌,
}
use gb_automations.Toggl.Aggregate.{
  Locale, Caches, CsvRow, Key, Cell, Expected, same_key, row_cell, add_cell, aggregate_onto,
  aggregate, expected, expect_onto, expect_row, key_add, user_key, expected_user_key, text_or,
  column, row_seconds,
}
use gb_automations.Toggl.Aggregate.Laws.{counted, add_row-skip, add_row-count}

abbrev pub sum_of : (Cell → ℕ) → List Cell → ℕ
sum_of f [] = 0
sum_of f (c ∷ cs) = f c + sum_of f cs

sums-add_cell :
    (e : Cell) (cs : List Cell)
    → (sum_of (λ c. c.seconds) (add_cell e cs) ≡ sum_of (λ c. c.seconds) cs + e.seconds)
      × (sum_of (λ c. c.entry_count) (add_cell e cs)
          ≡ sum_of (λ c. c.entry_count) cs + e.entry_count)
unfolding add_cell
sums-add_cell e [] = (omega arith, omega arith)
sums-add_cell e (c ∷ cs) = elim (Bool-cases (same_key c.key e.key)) [
  | inl h ↦ rw h (omega arith, omega arith)
  | inr h ↦ let r = sums-add_cell e cs in rw h (omega (arith, r.0), omega (arith, r.1))
]

abbrev pub keys : List Cell → List Key
keys [] = []
keys (c ∷ cs) = c.key ∷ keys cs

keys-add_cell : (e : Cell) (cs : List Cell) → keys (add_cell e cs) ≡ key_add e.key (keys cs)
unfolding add_cell key_add
keys-add_cell e [] = refl
keys-add_cell e (c ∷ cs) = elim (Bool-cases (same_key c.key e.key)) [
  | inl h ↦ rw h refl
  | inr h ↦ rw h (ap (λ ks. c.key ∷ ks) (keys-add_cell e cs))
]

-- Each row that counts has one entry.
row_cell-one :
    (locale : Locale) (caches : Caches) (row : CsvRow) (e : Cell)
    → row_cell locale caches row ≡ some e
    → e.entry_count ≡ 1
unfolding row_cell
row_cell-one locale caches row e h = ground arith

module _ (locale : Locale) (caches : Caches) where
  sums-aggregate_onto :
      (rows : List CsvRow) (cells : List Cell) (n : ℕ)
      → let r = aggregate_onto locale caches rows (cells, n) in
        (sum_of (λ c. c.seconds) r.0
          ≡ sum_of (λ c. c.seconds) cells + counted locale caches (λ e. e.seconds) rows)
        × (sum_of (λ c. c.entry_count) r.0 + r.1
            ≡ sum_of (λ c. c.entry_count) cells + n + length rows)
  unfolding aggregate_onto
  sums-aggregate_onto [] cells n = (omega arith, omega arith)
  sums-aggregate_onto (row ∷ rows) cells n = elim (Option-cases (row_cell locale caches row)) [
    | inl h ↦
        let r = sums-aggregate_onto rows cells (n + 1) in
        rw (aggregate_onto, add_row-skip locale caches row cells n h, h)
          (omega (arith, r.0), omega (arith, r.1))
    | inr (e, h) ↦
        let r = sums-aggregate_onto rows (add_cell e cells) n in
        let a = sums-add_cell e cells in
        rw (aggregate_onto, add_row-count locale caches row cells n e h, h)
          (omega (arith, r.0, a.0), omega (arith, r.1, a.1, row_cell-one locale caches row e h))
  ]

  -- The seconds of all cells are those of all rows that count, and each row either counts as one entry
  -- of a cell or is counted as skipped.
  pub aggregate-sums :
      (rows : List CsvRow)
      → let r = aggregate locale caches rows in
        (sum_of (λ c. c.seconds) r.0 ≡ counted locale caches (λ e. e.seconds) rows)
        × (sum_of (λ c. c.entry_count) r.0 + r.1 ≡ length rows)
  unfolding aggregate
  aggregate-sums rows =
      let r = sums-aggregate_onto rows [] 0 in (omega (arith, r.0), omega (arith, r.1))

-- The two ways to pick the name of a person agree.
same_choice :
    (known : Option String) (email name folded : String)
    → (truthy email ≡ false → known ≡ none)
    → (truthy name ≡ true → truthy folded ≡ true)
    → or_text known (text_or email (if truthy name then folded else "_anonymous_"))
      ≡ text_or
          (or_text
            (if truthy email then known else none)
            (text_or email (if truthy name then folded else "")))
          "_anonymous_"
same_choice known email name folded h f = ground arith

not_truthy : (s : String) → truthy s ≡ false → s ≡ ""
not_truthy String.[] h = refl
not_truthy (String.◌∷◌ c s) h = ground arith

abbrev pub key_step : List Key → Option Cell → List Key
key_step ks none = ks
key_step ks (some e) = key_add e.key ks

-- The cache has no entry for an empty address, and no name folds to the empty text.
module _ (locale : Locale) (caches : Caches) (no_blank : caches.user_id_by_email "" ≡ none)
    (keeps : (s : String) → truthy s ≡ true → truthy (locale.casefold s) ≡ true) where
  expected_user_key-eq :
      (row : CsvRow) → expected_user_key locale caches row ≡ user_key locale caches row
  unfolding expected_user_key user_key
  expected_user_key-eq row =
      let email = locale.lower (column row.email) in
      same_choice (caches.user_id_by_email email) email (column row.user)
        (locale.casefold (column row.user))
        (λ h. ap caches.user_id_by_email (not_truthy email h) ∙ no_blank) (keeps (column row.user))

  expect_row-cells :
      (row : CsvRow) (x : Expected)
      → (expect_row locale caches row x).expected_cells
        ≡ key_step x.expected_cells (row_cell locale caches row)
  unfolding expect_row row_cell
  expect_row-cells row x = elim (Bool-cases (row_seconds row == 0)) [
    | inl h ↦ rw h refl
    | inr h ↦ elim (Option-cases (locale.from_iso (column row.start_date))) [
      | inl d ↦ rw (h, d) refl
      | inr (day, d) ↦ rw (h, d, expected_user_key-eq row) refl
    ]
  ]

  expect_onto-cells :
      (rows : List CsvRow) (cells : List Cell) (n : ℕ) (x : Expected)
      → x.expected_cells ≡ keys cells
      → (expect_onto locale caches rows x).expected_cells
        ≡ keys (aggregate_onto locale caches rows (cells, n)).0
  unfolding expect_onto aggregate_onto
  expect_onto-cells [] cells n x h = h
  expect_onto-cells (row ∷ rows) cells n x h = elim (Option-cases (row_cell locale caches row)) [
    | inl s ↦
        rw (expect_onto, aggregate_onto, add_row-skip locale caches row cells n s)
          (expect_onto-cells rows cells (n + 1) (expect_row locale caches row x)
            (expect_row-cells row x ∙ rw s h))
    | inr (e, s) ↦
        rw (expect_onto, aggregate_onto, add_row-count locale caches row cells n e s)
          (expect_onto-cells rows (add_cell e cells) n (expect_row locale caches row x)
            (expect_row-cells row x ∙ rw s (ap (key_add e.key) h ∙ sym (keys-add_cell e cells))))
  ]

  -- The check of the hours expects just the cells that the sync writes, in the same order.
  pub expected-aggregate :
      (rows : List CsvRow)
      → (expected locale caches rows).expected_cells ≡ keys (aggregate locale caches rows).0
  unfolding expected aggregate
  expected-aggregate rows = expect_onto-cells rows [] 0 _ refl
