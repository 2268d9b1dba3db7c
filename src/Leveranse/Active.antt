-- ===== src/Leveranse/Active.antt =====
-- Which round of a deliverable is the active one, and the status that the deliverable is due.
use mathlib.Core.Path.{subst}
use gb_automations.Base.{
  ℕ, ◌≤◌, ◌<◌, ◌∙◌, ◌⊎◌, ◌++◌, String, Bool, true, false, none, some, List, [], ◌∷◌, ◌≡◌, ◌≢◌, refl,
  ap, arith, All, All-imp, Bool-cases, Option-cases, inl, inr, not, ◌||◌,
}
use gb_automations.Worker.Engines.{returned}
use gb_automations.Leveranse.{Board, SubRow, first_round}

-- A sub-row that is no round of corrections, is archived, or has no number.
abbrev pub Skipped : SubRow → Type 0
Skipped row = (row.is_runde ≡ false) ⊎ ((row.in_archive ≡ true) ⊎ (row.runde ≡ none))

-- `row` is the first of the sub-rows, newest first, that is a round with a number.
pub record IsActive (rows : List SubRow) (row : SubRow) : Type 0 where
  pub newer : List SubRow
  pub older : List SubRow
  pub number : ℕ
  pub stands : rows ≡ newer ++ row ∷ older
  pub skips : All Skipped newer
  pub is_round : row.is_runde ≡ true
  pub is_live : row.in_archive ≡ false
  pub numbered : row.runde ≡ some number

-- The status that a deliverable is due, by its sub-rows and the counts of corrections.
pub data Due (board : Board) (page : String) : String → Type 0 where
  -- every correction of the active round is ticked off
  all_ticked :
      (rows : List SubRow) (row : SubRow) (n : ℕ)
      → board.newest_first page ≡ returned rows
      → IsActive rows row
      → board.count_korreksjon_children row.id ≡ returned (n, n)
      → n ≢ 0
      → Due board page "Oppgaver ferdig"
  -- some are, and some are not
  some_ticked :
      (rows : List SubRow) (row : SubRow) (total ticked : ℕ)
      → board.newest_first page ≡ returned rows
      → IsActive rows row
      → board.count_korreksjon_children row.id ≡ returned (total, ticked)
      → ticked ≢ 0
      → ticked < total
      → Due board page "Under arbeid"
  -- there is no round, and a version was delivered
  delivered :
      (rows : List SubRow)
      → board.newest_first page ≡ returned rows
      → All Skipped rows
      → board.has_real_version page ≡ true
      → Due board page "Ferdig"

first_round-Skipped :
    (newer rows : List SubRow) → All Skipped newer → first_round (newer ++ rows) ≡ first_round rows
unfolding first_round
first_round-Skipped [] rows h = refl
first_round-Skipped (row ∷ newer) rows (inl e, h) =
    ground (arith, e, first_round-Skipped newer rows h)
first_round-Skipped (row ∷ newer) rows (inr (inl e), h) =
    ground (arith, e, first_round-Skipped newer rows h)
first_round-Skipped (row ∷ newer) rows (inr (inr e), h) =
    rw e (ground (arith, first_round-Skipped newer rows h))

pub first_round-all_Skipped : (rows : List SubRow) → All Skipped rows → first_round rows ≡ none
unfolding first_round
first_round-all_Skipped [] h = refl
first_round-all_Skipped (row ∷ rows) (inl e, h) = ground (arith, e, first_round-all_Skipped rows h)
first_round-all_Skipped (row ∷ rows) (inr (inl e), h) =
    ground (arith, e, first_round-all_Skipped rows h)
first_round-all_Skipped (row ∷ rows) (inr (inr e), h) =
    rw e (ground (arith, first_round-all_Skipped rows h))

pub first_round-IsActive :
    (rows : List SubRow) (row : SubRow)
    → (a : IsActive rows row) → first_round rows ≡ some (row.id, a.number)
unfolding first_round
first_round-IsActive rows row a =
    ap first_round a.stands
    ∙ first_round-Skipped a.newer (row ∷ a.older) a.skips
    ∙ rw (a.is_live, a.is_round, a.numbered) refl

-- The sub-rows in the order of the query: a row with a number comes before no higher one.
abbrev pub NewestFirst : List SubRow → Type 0
NewestFirst [] = Unit
NewestFirst (row ∷ rows) =
    All (λ (s : SubRow). (n m : ℕ) → row.runde ≡ some n → s.runde ≡ some m → m ≤ n) rows
    × NewestFirst rows

abbrev pub is_live : SubRow → Bool
is_live row = not (row.in_archive || not row.is_runde)

ap_number : {i : String} {n : ℕ} {r : String × ℕ} → some (i, n) ≡ some r → n ≡ r.1
ap_number e = ground arith

-- Of sub-rows sorted newest first, the active round has the highest number of the live rounds.
pub first_round_highest :
    (rows : List SubRow) (r : String × ℕ)
    → NewestFirst rows
    → first_round rows ≡ some r
    → All (λ (s : SubRow). is_live s ≡ true → (m : ℕ) → s.runde ≡ some m → m ≤ r.1) rows
unfolding first_round
first_round_highest [] r h e = tt
first_round_highest (row ∷ rows) r h e = elim (Bool-cases (row.in_archive || not row.is_runde)) [
  | inl a ↦ ((λ live m q. absurd (ground arith)), first_round_highest rows r h.1 (rw a at e))
  | inr a ↦ elim (Option-cases row.runde) [
    | inl none_here ↦ (
      (λ live m q. absurd (ground arith)),
      first_round_highest rows r h.1 (rw (a, none_here) at e),
    )
    | inr (n, here_n) ↦
        let top : n ≡ r.1 = ap_number (rw (a, here_n) at e) in
        (
          (λ live m q. ground arith),
          All-imp _ (λ (s : SubRow). is_live s ≡ true → (m : ℕ) → s.runde ≡ some m → m ≤ r.1)
              (λ s f live m q. subst (λ (x : ℕ). m ≤ x) top (f n m here_n q)) rows h.0,
        )
  ]
]
