-- ===== src/Tests/OnToggl.antt =====
-- The laws of the hours on a concrete export.
use gb_automations.Base.{
  ◌+◌, ◌*◌, ◌/◌, String, ◌<>◌, none, some, List, [], ◌∷◌, ◌++◌, ◌≡◌, refl, false, All, length,
  keep_if, decimal, str_eq, strip, if◌then◌else◌,
}
use gb_automations.Toggl.Durations.{parse_csv_duration_to_seconds}
use gb_automations.Toggl.Durations.Roundtrip.{parse_csv_duration-decimal}
use gb_automations.Toggl.Aggregate.{
  Locale, Caches, CsvRow, Key, Cell, same_key, row_cell, aggregate, expected,
}
use gb_automations.Toggl.Aggregate.Laws.{seconds_at, entries_at, counted, if_key, aggregate-at}
use gb_automations.Toggl.Aggregate.Totals.{sum_of, keys, aggregate-sums, expected-aggregate}
use gb_automations.Toggl.Aggregate.Distinct.{Distinct, HasHours, aggregate-Distinct}
use gb_automations.Toggl.Reconcile.{TimerRow, Lookups, Notion, fields}
use gb_automations.Toggl.Reconcile.Year.{is_unkeyed, reconcile_year}
use gb_automations.Toggl.Reconcile.Settled.{Clean, Rows}
use gb_automations.Toggl.Reconcile.Twice.{reconcile_year-Rows, reconcile_year-again}

parse_csv_duration-decimal_example :
    parse_csv_duration_to_seconds (decimal 12 <> ":" <> decimal 3 <> ":" <> decimal 45)
    ≡ 12 * 3600 + 3 * 60 + 45
parse_csv_duration-decimal_example = parse_csv_duration-decimal 12 3 45

duration_of_text : parse_csv_duration_to_seconds "12:03:45" ≡ 43_425
unfolding parse_csv_duration_to_seconds strip
duration_of_text = refl

abbrev locale : Locale
locale = record {
  lower = λ s. s;
  casefold = λ s. s;
  from_iso = λ s. if str_eq s "2026-01-05" then some 739_621 else none;
}

abbrev caches : Caches
caches = record {
  user_id_by_email = λ s. if str_eq s "a@b.no" then some "17" else none;
  project_id_by_name = λ s. none;
  user_name_by_email = λ s. none;
}

abbrev csv : String → String → CsvRow
csv duration day = record {
  duration = some duration;
  email = some "a@b.no";
  user = some "Ada";
  project = some "Acme";
  description = none;
  start_date = some day;
}

abbrev export : List CsvRow
export = csv "01:00:00" "2026-01-05" ∷ csv "00:30:00" "2026-01-05" ∷ csv "00:10:00" "?" ∷ []

abbrev key : Key
key = record { user = "17"; project = "_name:Acme"; day = 739_621 }

abbrev cell : Cell
cell = record {
  key = key;
  seconds = 5400;
  entry_count = 2;
  descriptions = [];
  user_name = "Ada";
  project_name = "Acme";
}

aggregate_of_export : aggregate locale caches export ≡ (cell ∷ [], 1)
unfolding aggregate row_cell same_key parse_csv_duration_to_seconds strip
aggregate_of_export = refl

aggregate-at_example :
    (seconds_at key (aggregate locale caches export).0
      ≡ counted locale caches (λ e. if_key key e e.seconds) export)
    × (entries_at key (aggregate locale caches export).0
        ≡ counted locale caches (λ e. if_key key e e.entry_count) export)
aggregate-at_example = aggregate-at locale caches export key

aggregate-sums_example :
    (sum_of (λ c. c.seconds) (aggregate locale caches export).0
      ≡ counted locale caches (λ e. e.seconds) export)
    × (sum_of (λ c. c.entry_count) (aggregate locale caches export).0
          + (aggregate locale caches export).1
        ≡ length export)
aggregate-sums_example = aggregate-sums locale caches export

aggregate-Distinct_example :
    Distinct (aggregate locale caches export).0 × All HasHours (aggregate locale caches export).0
aggregate-Distinct_example = aggregate-Distinct locale caches export

expected-aggregate_example :
    (expected locale caches export).expected_cells ≡ keys (aggregate locale caches export).0
expected-aggregate_example = expected-aggregate locale caches refl (λ s h. h) export

abbrev look : Lookups
look = record {
  round_hours = λ s. s / 36;
  user_uuid = λ s. some "u1";
  user_name = λ s. none;
  project_map = λ s. none;
  toggl_project_names = λ s. none;
}

abbrev notion : Notion
notion = record { new_id = λ k. "new"; raises = λ r. false }

abbrev old : String → TimerRow
old id = record {
  id = id;
  user_id = "17";
  project_id = "_name:Acme";
  day = some 739_621;
  hours = 100_000;
  entry_count = 2;
  description = "";
  toggl_project_name = "Acme";
  toggl_user_name = "Ada";
  project = [];
  employee = "u1" ∷ [];
}

cell-Clean : All (Clean look) (cell ∷ [])
unfolding fields strip
cell-Clean = (
  record {
    hours = refl;
    user = refl;
    named = refl;
    project = refl;
    description = refl;
    project_label = refl;
    user_label = refl;
  },
  tt,
)

reconcile_year-Rows_example :
    (ws : List TimerRow) × ((reconcile_year notion look (cell ∷ []) (old "a" ∷ old "b" ∷ [])).0
      ≡ keep_if is_unkeyed (old "a" ∷ old "b" ∷ []) ++ ws)
    × Rows look (cell ∷ []) ws
reconcile_year-Rows_example =
    reconcile_year-Rows notion look (cell ∷ []) (old "a" ∷ old "b" ∷ []) (λ r. refl) cell-Clean

reconcile_year-again_example :
    reconcile_year notion look
      (cell ∷ [])
      (reconcile_year notion look (cell ∷ []) (old "a" ∷ old "b" ∷ [])).0
    ≡ ((reconcile_year notion look (cell ∷ []) (old "a" ∷ old "b" ∷ [])).0, [])
reconcile_year-again_example =
    reconcile_year-again notion look (cell ∷ []) (old "a" ∷ old "b" ∷ []) (λ r. refl) cell-Clean
      (tt, tt)
