-- ===== src/Tests/OnLabels.antt =====
-- The laws of the labels in a mailbox that has at most one label, and on a name with a slash.
use text.Mathlib.TextPositions.{eq_refl}
use mathlib.Core.Path.{subst}
use gb_automations.Base.{
  String, List, All, Bool, true, false, Option, none, some, [], ◌∷◌, ◌≡◌, refl, ap, arith, inl, inr,
  Bool-cases, if◌then◌else◌, str_eq, str_eq_iff,
}
use gb_automations.Worker.Engines.{Attempt, returned, raised, value_error}
use gb_automations.Toggl.Durations.{split}
use gb_automations.Labels.Path.{project_label_path, project_path_parts}
use gb_automations.Labels.Path.Segments.{project_label_path-split}
use gb_automations.Labels.Mailbox.{
  Live, live, missing, Gmail, IsGmail, State, row_of, sync_labels, reconcile_label,
  create_label_for, reconcile_live, unchanged, already_present, patched, healed,
}
use gb_automations.Labels.Project.{
  Action, action_of, outcomes, mailboxes, sync_project_labels, Reachable, sync_project_labels-again,
}
use gb_automations.Labels.Mailbox.Laws.{
  Labelled, sync_labels-Labelled, sync_labels-again, sync_labels-keeps,
}

abbrev live_of : Option String → Live
live_of none = missing
live_of (some n) = live n

abbrev label_at : Option String → String → Live
label_at s id = if str_eq id "L" then live_of s else missing

abbrev create_in : Option String → String → Attempt ((String × Bool) × Option String)
create_in none name = returned (("L", true), some name)
create_in (some n) name =
    if str_eq n name then returned (("L", false), some n) else raised (value_error "full")

abbrev rename_in : Option String → String → String → Attempt (Option String)
rename_in s id name = if str_eq id "L" then returned (some name) else raised (value_error "404")

abbrev gmail : Gmail (Option String)
gmail = record { get_label = label_at; create_label = create_in; update_label_name = rename_in }

-- What the laws say of an answer
abbrev Made : String → Attempt ((String × Bool) × Option String) → Type 0
Made name (returned ((id, new), s')) = label_at s' id ≡ live name
Made name (raised e) = Unit

create-Made : (s : Option String) (name : String) → Made name (create_in s name)
create-Made none name = refl
create-Made (some n) name = elim (Bool-cases (str_eq n name)) [
  | inl e ↦ rw e (ap live ((str_eq_iff n name).0 e))
  | inr e ↦ rw e tt
]

abbrev Same : Option String → String → Attempt ((String × Bool) × Option String) → Type 0
Same s id (returned ((other, new), s')) = (other ≡ id) × (new ≡ false) × (s' ≡ s)
Same s id (raised e) = Unit

live_is : (s : Option String) (name : String) → live_of s ≡ live name → s ≡ some name
live_is none name h = ground (arith, h)
live_is (some n) name h = cc h

label-finds :
    (s : Option String) (id name : String)
    → label_at s id ≡ live name
    → (id ≡ "L") × (s ≡ some name)
label-finds s id name = elim (Bool-cases (str_eq id "L")) [
  | inl e ↦ rw e (λ h. ((str_eq_iff id "L").0 e, live_is s name h))
  | inr e ↦ rw e (λ h. ground (arith, h))
]

create-Same :
    (s : Option String) (id name : String)
    → label_at s id ≡ live name
    → Same s id (create_in s name)
create-Same s id name h =
    let f = label-finds s id name h in rw (f.0, f.1, eq_refl name) (refl, refl, refl)

abbrev Renamed : String → String → Attempt (Option String) → Type 0
Renamed id name (returned s') = label_at s' id ≡ live name
Renamed id name (raised e) = Unit

rename-Renamed : (s : Option String) (id name : String) → Renamed id name (rename_in s id name)
rename-Renamed s id name = elim (Bool-cases (str_eq id "L")) [
  | inl e ↦ rw (e, e) refl
  | inr e ↦ rw e tt
]

gmail-IsGmail : IsGmail gmail
gmail-IsGmail = record {
  created = λ s s' name id new e. subst (Made name) e (create-Made s name);
  finds = λ s s' name id other new h e. subst (Same s id) e (create-Same s id name h);
  renamed = λ s s' id name e. subst (Renamed id name) e (rename-Renamed s id name);
}

-- The project was renamed: its label is patched in place.
renamed_project :
    sync_labels gmail "new" true (some (row_of gmail "old" "L"), some "old")
    ≡ ((patched, already_present), (some (row_of gmail "new" "L"), some "new"))
unfolding sync_labels reconcile_label reconcile_live create_label_for
renamed_project = refl

sync_labels-keeps_example :
    ((sync_labels gmail "new" true (some (row_of gmail "old" "L"), some "old")).1.0
      ≡ some (row_of gmail "new" "L"))
    × (label_at (sync_labels gmail "new" true (some (row_of gmail "old" "L"), some "old")).1.1 "L"
        ≡ live "new")
sync_labels-keeps_example =
    sync_labels-keeps gmail gmail-IsGmail "new" (row_of gmail "old" "L") (some "old") "old" refl
      (rw renamed_project (λ h. ground (arith, h))) (rw renamed_project (λ h. ground (arith, h)))

second_run :
    sync_labels gmail "new" true (some (row_of gmail "new" "L"), some "new")
    ≡ ((unchanged, already_present), (some (row_of gmail "new" "L"), some "new"))
unfolding sync_labels reconcile_label reconcile_live create_label_for
second_run = refl

sync_labels-again_run :
    sync_labels gmail "new" true (some (row_of gmail "new" "L"), some "new")
    ≡ ((unchanged, already_present), (some (row_of gmail "new" "L"), some "new"))
sync_labels-again_run =
    sync_labels-again gmail gmail-IsGmail "new" (some "new") "L" refl
      (rw second_run (λ h. ground (arith, h)))

-- The label was deleted in Gmail: the run heals the row.
deleted_label :
    sync_labels gmail "new" true (some (row_of gmail "old" "gone"), none)
    ≡ ((healed, already_present), (some (row_of gmail "new" "L"), some "new"))
unfolding sync_labels reconcile_label reconcile_live create_label_for
deleted_label = refl

sync_labels-Labelled_example :
    Labelled gmail gmail-IsGmail "new"
      (sync_labels gmail "new" true (some (row_of gmail "old" "gone"), none)).1
sync_labels-Labelled_example =
    sync_labels-Labelled gmail gmail-IsGmail "new" (some (row_of gmail "old" "gone"), none)
      (rw deleted_label (λ h. ground (arith, h)))

project_label_path-split_example :
    split 47 (project_label_path "Foo/Bar" (some "2026-05-18T10:30:00.000Z"))
    ≡ "Prosjekt"
      ∷ (project_path_parts "Foo/Bar" (some "2026-05-18T10:30:00.000Z")).0
      ∷ (project_path_parts "Foo/Bar" (some "2026-05-18T10:30:00.000Z")).1
      ∷ []
project_label_path-split_example =
    project_label_path-split "Foo/Bar" (some "2026-05-18T10:30:00.000Z")

abbrev two_mailboxes : List (Bool × State gmail "new")
two_mailboxes = (true, (some (row_of gmail "old" "L"), some "old")) ∷ (true, (none, none)) ∷ []

abbrev in_step : Bool × State gmail "new"
in_step = (true, (some (row_of gmail "new" "L"), some "new"))

-- In one mailbox the label is renamed, in the other it is made.
run_of_two_mailboxes :
    sync_project_labels gmail "new" two_mailboxes ≡ (Action.synced, in_step ∷ in_step ∷ [])
unfolding sync_project_labels action_of outcomes mailboxes sync_labels reconcile_label
    reconcile_live create_label_for
run_of_two_mailboxes = refl

two_mailboxes-Reachable : All (Reachable gmail gmail-IsGmail "new") two_mailboxes
unfolding sync_labels reconcile_label reconcile_live create_label_for
two_mailboxes-Reachable = ((refl, λ h. ground (arith, h)), ((refl, λ h. ground (arith, h)), tt))

second_run-Reachable :
    All (Reachable gmail gmail-IsGmail "new") (mailboxes gmail "new" two_mailboxes)
unfolding mailboxes sync_labels reconcile_label reconcile_live create_label_for
second_run-Reachable = ((refl, λ h. ground (arith, h)), ((refl, λ h. ground (arith, h)), tt))

sync_project_labels-again_example :
    sync_project_labels gmail "new" (sync_project_labels gmail "new" two_mailboxes).1
    ≡ (Action.unchanged, (sync_project_labels gmail "new" two_mailboxes).1)
sync_project_labels-again_example =
    sync_project_labels-again gmail gmail-IsGmail "new"
      (true, (some (row_of gmail "old" "L"), some "old")) ((true, (none, none)) ∷ [])
      two_mailboxes-Reachable second_run-Reachable
