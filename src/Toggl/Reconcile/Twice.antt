-- ===== src/Toggl/Reconcile/Twice.antt =====
-- A run brings the rows to the cells, and the next run has nothing to ask.
use mathlib.Core.List.{append-nil}
use gb_automations.Base.{
  true, false, List, [], ◌∷◌, ◌++◌, ◌≡◌, refl, ap, All, keep_if, Bool-cases, inl, inr,
}
use gb_automations.Toggl.Aggregate.{Cell}
use gb_automations.Toggl.Aggregate.Distinct.{Distinct}
use gb_automations.Toggl.Reconcile.{TimerRow, Lookups, Notion, Request}
use gb_automations.Toggl.Reconcile.Year.{
  is_unkeyed, index_onto, settle_cells, orphans, drop_all, reconcile_year,
}
use gb_automations.Toggl.Reconcile.Settled.{Clean, Rows, drop_all-none, settle_cells-Rows}
use gb_automations.Toggl.Reconcile.Again.{
  index_onto-unkeyed, index_onto-Rows, settle_cells-Rows_again, orphans-Rows,
}

kept-unkeyed : (rows : List TimerRow) → All (λ u. is_unkeyed u ≡ true) (keep_if is_unkeyed rows)
kept-unkeyed [] = tt
kept-unkeyed (r ∷ rs) = elim (Bool-cases (is_unkeyed r)) [
  | inl e ↦ rw e (e, kept-unkeyed rs)
  | inr e ↦ rw e (kept-unkeyed rs)
]

keep_if-unkeyed :
    (us ws : List TimerRow)
    → All (λ u. is_unkeyed u ≡ true) us
    → keep_if is_unkeyed (us ++ ws) ≡ us ++ keep_if is_unkeyed ws
keep_if-unkeyed [] ws h = refl
keep_if-unkeyed (u ∷ us) ws h = rw h.0 (ap (λ rows. u ∷ rows) (keep_if-unkeyed us ws h.1))

no_unkeyed :
    (look : Lookups) (cells : List Cell) (ws : List TimerRow)
    → Rows look cells ws
    → keep_if is_unkeyed ws ≡ []
unfolding is_unkeyed
no_unkeyed look [] [] r = refl
no_unkeyed look [] (w ∷ ws) r = elim r [ ]
no_unkeyed look (c ∷ cs) [] r = elim r [ ]
no_unkeyed look (c ∷ cs) (w ∷ ws) r = rw (is_unkeyed, r.0.0) (no_unkeyed look cs ws r.1)

-- When no request raises and the texts are clean, a run leaves the rows without a key, and for each
-- cell in order one row that has its key and shows its fields.
pub reconcile_year-Rows :
    (notion : Notion) (look : Lookups) (cells : List Cell) (rows : List TimerRow)
    → ((r : Request) → notion.raises r ≡ false)
    → All (Clean look) cells
    → (ws : List TimerRow) × ((reconcile_year notion look cells rows).0
        ≡ keep_if is_unkeyed rows ++ ws)
      × Rows look cells ws
unfolding reconcile_year
reconcile_year-Rows notion look cells rows calm clean =
    let index = index_onto rows [] [] in
    (
      (settle_cells notion look index.0 cells).0,
      rw
          (
            drop_all-none notion look calm index.1,
            drop_all-none notion look calm (orphans cells index.0),
            append-nil (keep_if is_unkeyed rows),
            append-nil (settle_cells notion look index.0 cells).0,
          )
          refl,
      settle_cells-Rows notion look calm index.0 cells clean,
    )

-- A run over rows without a key and one row for each cell asks nothing.
reconcile_year-Rows_again :
    (notion : Notion) (look : Lookups) (cells : List Cell) (us ws : List TimerRow)
    → All (λ u. is_unkeyed u ≡ true) us
    → All (Clean look) cells
    → Distinct cells
    → Rows look cells ws
    → reconcile_year notion look cells (us ++ ws) ≡ (us ++ ws, [])
unfolding reconcile_year drop_all
reconcile_year-Rows_again notion look cells us ws h clean d r =
    rw
      (
        index_onto-unkeyed look us ws h,
        index_onto-Rows look cells ws [] r d (apart cells),
        settle_cells-Rows_again look notion cells [] ws r clean d (apart cells),
        orphans-Rows look cells cells ws r (λ w m. m),
        keep_if-unkeyed us ws h,
        no_unkeyed look cells ws r,
        append-nil us,
        append-nil ws,
        append-nil us,
      )
      refl
  where
    apart : (cells : List Cell) → All (λ (c : Cell). false ≡ false) cells
    apart [] = tt
    apart (c ∷ cs) = (refl, apart cs)

-- When no request of the first run raises, the texts are clean and no two cells share a key, a second
-- run makes no request and changes nothing.
pub reconcile_year-again :
    (notion : Notion) (look : Lookups) (cells : List Cell) (rows : List TimerRow)
    → ((r : Request) → notion.raises r ≡ false)
    → All (Clean look) cells
    → Distinct cells
    → reconcile_year notion look cells (reconcile_year notion look cells rows).0
      ≡ ((reconcile_year notion look cells rows).0, [])
reconcile_year-again notion look cells rows calm clean d =
    let r = reconcile_year-Rows notion look cells rows calm clean in
    rw r.1 (
      reconcile_year-Rows_again notion look cells (keep_if is_unkeyed rows) r.0 (kept-unkeyed rows)
        clean d r.2)
