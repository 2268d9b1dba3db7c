-- ===== src/Toggl/Reconcile.antt =====
-- _reconcile_year: the rows of a year's Timer database against the cells. What Notion answers, and how
-- Python rounds hours to hundredths, are parameters. An hour counts 100 000.
pub mod Year
pub mod Settled
pub mod Again
pub mod Twice
use gb_automations.Base.{
  ℕ, ◌+◌, ◌-◌, ◌*◌, String, ◌<>◌, Bool, true, false, Option, none, some, List, [], ◌∷◌, ◌++◌, ◌&&◌,
  ◌||◌, ◌==◌, not, ltb, chars, take_chars, if◌then◌else◌, truthy, present, strip, or_text, str_eq,
}
use gb_automations.Toggl.Aggregate.{Key, Cell, same_key, text_or}

-- A row of a Timer database, with its texts as Notion has them; `day` is the parsed date.
pub record TimerRow : Type 0 where
  pub id : String
  pub user_id : String
  pub project_id : String
  pub day : Option ℕ
  pub hours : ℕ
  pub entry_count : ℕ
  pub description : String
  pub toggl_project_name : String
  pub toggl_user_name : String
  pub project : List String
  pub employee : List String

unfoldable pub row_key : TimerRow → Option Key
row_key row = elim row.day [
  | none ↦ none
  | some day ↦
      if truthy (strip row.user_id)
      then some (record { user = strip row.user_id; project = strip row.project_id; day = day })
      else none
]

pub record Lookups : Type 0 where
  pub round_hours : ℕ → ℕ
  pub user_uuid : String → Option String
  pub user_name : String → Option String
  pub project_map : String → Option String
  pub toggl_project_names : String → Option String

-- `s.removeprefix("_name:")`, none without the prefix
unfoldable pub after_prefix : String → String → Option String
after_prefix String.[] s = some s
after_prefix (String.◌∷◌ p ps) String.[] = none
after_prefix (String.◌∷◌ p ps) (String.◌∷◌ c s) =
    let rest = after_prefix ps s in
    if str_eq (String.◌∷◌ p String.[]) (String.◌∷◌ c String.[]) then rest else none

unfoldable pub resolve_toggl_project_label : (String → Option String) → String → String → String
unfolding after_prefix
resolve_toggl_project_label names key csv_name =
    if not (truthy key) then "Uten prosjekt" else elim (after_prefix "_name:" key) [
      | some name ↦ text_or csv_name name
      | none ↦ or_text (names key) (text_or csv_name key)
    ]

-- ", ".join(…)
abbrev pub join_commas : List String → String
join_commas [] = ""
join_commas (d ∷ []) = d
join_commas (d ∷ e ∷ ds) = d <> ", " <> join_commas (e ∷ ds)

unfoldable pub join_descriptions : List String → String
join_descriptions ds =
    let joined = join_commas ds in
    if ltb 1900 (chars joined) then take_chars 1897 joined <> "..." else joined

-- What _create_timer_row and _patch_timer_row write.
pub record Fields : Type 0 where
  pub hours : ℕ
  pub entry_count : ℕ
  pub description : String
  pub toggl_project_label : String
  pub toggl_user_label : String
  pub project : List String
  pub employee : List String

abbrev pub ids_of : Option String → List String
ids_of none = []
ids_of (some s) = if truthy s then s ∷ [] else []

unfoldable pub fields : Lookups → Cell → Fields
unfolding join_descriptions resolve_toggl_project_label
fields look c = record {
  hours = look.round_hours c.seconds * 1000;
  entry_count = c.entry_count;
  description = join_descriptions c.descriptions;
  toggl_project_label =
      resolve_toggl_project_label look.toggl_project_names c.key.project c.project_name;
  toggl_user_label =
      text_or (or_text (look.user_name c.key.user) c.user_name) ("toggl_user_" <> c.key.user);
  project = if truthy c.key.project then ids_of (look.project_map c.key.project) else [];
  employee = ids_of (look.user_uuid c.key.user);
}

abbrev pub same_texts : List String → List String → Bool
same_texts [] [] = true
same_texts (s ∷ ss) (t ∷ ts) = str_eq s t && same_texts ss ts
same_texts _ _ = false

-- Whether any of the written fields differs from what the row has.
unfoldable pub drifted : Fields → TimerRow → Bool
drifted f row =
    ltb 100 (row.hours - f.hours)
    || ltb 100 (f.hours - row.hours)
    || not (row.entry_count == f.entry_count)
    || not (str_eq (strip row.description) f.description)
    || not (str_eq (strip row.toggl_project_name) f.toggl_project_label)
    || not (str_eq (strip row.toggl_user_name) f.toggl_user_label)
    || not (same_texts f.project row.project)
    || not (same_texts f.employee row.employee)

unfoldable pub patched : Fields → TimerRow → TimerRow
patched f row = record row {
  hours = f.hours;
  entry_count = f.entry_count;
  description = f.description;
  toggl_project_name = f.toggl_project_label;
  toggl_user_name = f.toggl_user_label;
  project = f.project;
  employee = f.employee;
}

unfoldable pub created : String → Key → Fields → TimerRow
created id key f = record {
  id = id;
  user_id = key.user;
  project_id = key.project;
  day = some key.day;
  hours = f.hours;
  entry_count = f.entry_count;
  description = f.description;
  toggl_project_name = f.toggl_project_label;
  toggl_user_name = f.toggl_user_label;
  project = f.project;
  employee = f.employee;
}

pub data Request : Type 0 where
  archive : String → Request
  create : Key → Fields → Request
  patch : String → Fields → Request

pub record Notion : Type 0 where
  pub new_id : Key → String
  pub raises : Request → Bool

-- What is left where a request stands between two states of some rows, and the requests made.
abbrev pub ask : Notion → Request → List TimerRow → List TimerRow → List TimerRow × List Request
ask notion r before after = (if notion.raises r then before else after, r ∷ [])

-- The body of the loop for a key of a cell with hours.
unfoldable pub keep_cell : Notion → Lookups → Cell → Option TimerRow → List TimerRow × List Request
unfolding fields drifted patched created
keep_cell notion look c none =
    let f = fields look c in
    ask notion (create c.key f) [] (created (notion.new_id c.key) c.key f ∷ [])
keep_cell notion look c (some row) =
    let f = fields look c in
    if drifted f row
    then ask notion (patch row.id f) (row ∷ []) (patched f row ∷ [])
    else (row ∷ [], [])

unfoldable pub drop_row : Notion → TimerRow → List TimerRow × List Request
drop_row notion row = ask notion (archive row.id) (row ∷ []) []

-- Two runs one after the other.
abbrev pub both :
    List TimerRow × List Request → List TimerRow × List Request → List TimerRow × List Request
both (rows, rs) (rows', rs') = (rows ++ rows', rs ++ rs')
