-- ===== src/Toggl/Aggregate.antt =====
-- _aggregate: the rows of the export added up to cells, one for each person, project and day; and the
-- Toggl side of reconcile_toggl_notion_hours, which counts them anew.
pub mod Laws
pub mod Totals
pub mod Distinct
use gb_automations.Base.{
  ℕ, ◌+◌, String, ◌<>◌, Bool, Option, none, some, List, [], ◌∷◌, ◌++◌, ◌&&◌, ◌==◌, count_if, any_of,
  if◌then◌else◌, truthy, strip, or_text, set_add, str_eq, not,
}
use gb_automations.Toggl.Durations.{parse_csv_duration_to_seconds}

-- What Python's own library answers: `str.lower`, `str.casefold`, and `date.fromisoformat`, as the
-- ordinal of the day, none where it raises.
pub record Locale : Type 0 where
  pub lower : String → String
  pub casefold : String → String
  pub from_iso : String → Option ℕ

-- The columns of the export that are read.
pub record CsvRow : Type 0 where
  pub duration : Option String
  pub email : Option String
  pub user : Option String
  pub project : Option String
  pub description : Option String
  pub start_date : Option String

pub record Caches : Type 0 where
  pub user_id_by_email : String → Option String
  pub project_id_by_name : String → Option String
  pub user_name_by_email : String → Option String

pub record Key : Type 0 where
  pub user : String
  pub project : String
  pub day : ℕ

unfoldable pub same_key : Key → Key → Bool
same_key k l = str_eq k.user l.user && str_eq k.project l.project && k.day == l.day

-- One key's entries of the dicts that _aggregate fills.
pub record Cell : Type 0 where
  pub key : Key
  pub seconds : ℕ
  pub entry_count : ℕ
  pub descriptions : List String
  pub user_name : String
  pub project_name : String

-- (row.get(…) or "").strip()
abbrev pub column : Option String → String
column o = strip (or_text o "")

-- `a or b` of two texts
abbrev pub text_or : String → String → String
text_or a b = if truthy a then a else b

unfoldable pub row_seconds : CsvRow → ℕ
row_seconds row = parse_csv_duration_to_seconds (column row.duration)

abbrev pub add_all : List String → List String → List String
add_all [] ds = ds
add_all (e ∷ es) ds = set_add e (add_all es ds)

-- A row's cell is added to the one with its key, whose labels stay; or it is a new one.
unfoldable pub add_cell : Cell → List Cell → List Cell
add_cell e [] = e ∷ []
add_cell e (c ∷ cs) =
    let rest = add_cell e cs in
    if same_key c.key e.key
    then record c {
      seconds = c.seconds + e.seconds;
      entry_count = c.entry_count + e.entry_count;
      descriptions = add_all e.descriptions c.descriptions;
    }
      ∷ cs
    else c ∷ rest

-- `stats["no_project_cells"]`
abbrev pub no_project_cells : List Cell → ℕ
no_project_cells cells = count_if (λ c. not (truthy c.key.project)) cells

unfoldable pub key_add : Key → List Key → List Key
key_add k [] = k ∷ []
key_add k (l ∷ ls) = let rest = key_add k ls in if same_key l k then l ∷ ls else l ∷ rest

pub record Expected : Type 0 where
  pub toggl_seconds : ℕ
  pub raw_entry_count : ℕ
  pub expected_cells : List Key

module _ (locale : Locale) (caches : Caches) where
  unfoldable pub user_key : CsvRow → String
  user_key row =
      let email = locale.lower (column row.email) in
      let name = column row.user in
      let known = if truthy email then caches.user_id_by_email email else none in
      text_or (or_text known (text_or email (if truthy name then locale.casefold name else "")))
        "_anonymous_"

  unfoldable pub project_key : CsvRow → String
  project_key row =
      let name = column row.project in
      let folded = locale.casefold name in
      if truthy name then or_text (caches.project_id_by_name folded) ("_name:" <> folded) else ""

  -- The cell of one row alone; none where the row is skipped.
  unfoldable pub row_cell : CsvRow → Option Cell
  unfolding user_key project_key row_seconds
  row_cell row =
      let seconds = row_seconds row in
      let email = locale.lower (column row.email) in
      let description = column row.description in
      if seconds == 0 then none else elim (locale.from_iso (column row.start_date)) [
        | none ↦ none
        | some day ↦ some (record {
          key = record { user = user_key row; project = project_key row; day = day };
          seconds = seconds;
          entry_count = 1;
          descriptions = if truthy description then description ∷ [] else [];
          user_name = text_or (column row.user) (or_text (caches.user_name_by_email email) "");
          project_name = column row.project;
        })
      ]

  -- The cells, and how many rows were skipped.
  unfoldable pub add_row : CsvRow → List Cell × ℕ → List Cell × ℕ
  unfolding row_cell add_cell
  add_row row (cells, skipped) = elim (row_cell row) [
    | none ↦ (cells, skipped + 1)
    | some e ↦ (add_cell e cells, skipped)
  ]

  unfoldable pub aggregate_onto : List CsvRow → List Cell × ℕ → List Cell × ℕ
  unfolding add_row
  aggregate_onto [] s = s
  aggregate_onto (row ∷ rows) s = aggregate_onto rows (add_row row s)

  unfoldable pub aggregate : List CsvRow → List Cell × ℕ
  unfolding aggregate_onto
  aggregate rows = aggregate_onto rows ([], 0)

  -- The keys as reconcile_toggl_notion_hours forms them.
  unfoldable pub expected_user_key : CsvRow → String
  expected_user_key row =
      let email = locale.lower (column row.email) in
      let name = column row.user in
      or_text (caches.user_id_by_email email)
        (text_or email (if truthy name then locale.casefold name else "_anonymous_"))

  unfoldable pub expect_row : CsvRow → Expected → Expected
  unfolding expected_user_key project_key key_add row_seconds
  expect_row row x =
      let seconds = row_seconds row in
      let keys : List Key = elim (locale.from_iso (column row.start_date)) [
        | none ↦ x.expected_cells
        | some day ↦
            key_add (record { user = expected_user_key row; project = project_key row; day = day })
              x.expected_cells
      ] in
      if seconds == 0 then x else record {
        toggl_seconds = x.toggl_seconds + seconds;
        raw_entry_count = x.raw_entry_count + 1;
        expected_cells = keys;
      }

  unfoldable pub expect_onto : List CsvRow → Expected → Expected
  unfolding expect_row
  expect_onto [] x = x
  expect_onto (row ∷ rows) x = expect_onto rows (expect_row row x)

  unfoldable pub expected : List CsvRow → Expected
  unfolding expect_onto
  expected rows =
      expect_onto rows (record { toggl_seconds = 0; raw_entry_count = 0; expected_cells = [] })
