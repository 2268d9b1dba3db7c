-- ===== src/Labels/Project.antt =====
-- sync/sync_labels.py: a run over all mailboxes, and what it tells.
use gb_automations.Base.{
  String, Option, arith, Bool, true, false, List, [], ◌∷◌, ◌≡◌, refl, if◌then◌else◌, All, any_of,
}
use gb_automations.Labels.Mailbox.{
  Gmail, IsGmail, Outcome, no_row, patched, healed, failed, already_present, ProjectLabel, State,
  sync_labels,
}
use gb_automations.Labels.Mailbox.Laws.{Labelled, sync_labels-Labelled, sync_labels-again}

-- LabelSyncResult.action
pub data Action : Type 0 where
  created synced unchanged : Action

abbrev pub has_mapping : Outcome × Outcome → Bool
has_mapping (no_row, c) = false
has_mapping _ = true

abbrev pub is_drift : Outcome × Outcome → Bool
is_drift (patched, c) = true
is_drift (healed, c) = true
is_drift _ = false

unfoldable pub action_of : List (Outcome × Outcome) → Action
action_of rs =
    if any_of has_mapping rs
    then if any_of is_drift rs then Action.synced else Action.unchanged
    else Action.created

module _ {S : Type 0} (gmail : Gmail S) (name : String) where
  -- What each mailbox tells; a mailbox is active or not.
  unfoldable pub outcomes : List (Bool × State gmail name) → List (Outcome × Outcome)
  outcomes [] = []
  outcomes ((active, st) ∷ ms) = (sync_labels gmail name active st).0 ∷ outcomes ms

  unfoldable pub mailboxes : List (Bool × State gmail name) → List (Bool × State gmail name)
  mailboxes [] = []
  mailboxes ((active, st) ∷ ms) = (active, (sync_labels gmail name active st).1) ∷ mailboxes ms

  -- sync_project_labels, where the page has a title and the setting is on
  unfoldable pub sync_project_labels :
      List (Bool × State gmail name) → Action × List (Bool × State gmail name)
  unfolding outcomes action_of mailboxes
  sync_project_labels ms = (action_of (outcomes ms), mailboxes ms)

module _ {S : Type 0} (gmail : Gmail S) (is : IsGmail gmail) (name : String) where
  -- create_label does not raise in the mailbox, which is active.
  abbrev pub Reachable : Bool × State gmail name → Type 0
  Reachable m = (m.0 ≡ true) × ¬ ((sync_labels gmail name m.0 m.1).0.1 ≡ failed)

  Labelled-again :
      (r : Option ProjectLabel) (s : S)
      → Labelled gmail is name (r, s)
      → ¬ ((sync_labels gmail name true (r, s)).0.1 ≡ failed)
      → sync_labels gmail name true (r, s) ≡ ((Outcome.unchanged, already_present), (r, s))
  Labelled-again r s (id, e, l) = rw e (sync_labels-again gmail is name s id l)

  settled :
      (st : State gmail name)
      → Reachable (true, st)
      → Reachable (true, (sync_labels gmail name true st).1)
      → sync_labels gmail name true (sync_labels gmail name true st).1
        ≡ ((Outcome.unchanged, already_present), (sync_labels gmail name true st).1)
  settled st h h' =
      let n = (sync_labels gmail name true st).1 in
      Labelled-again n.0 n.1 (sync_labels-Labelled gmail is name st h.1) h'.1

  outcomes-calm :
      (ms : List (Bool × State gmail name))
      → All Reachable ms
      → All Reachable (mailboxes gmail name ms)
      → any_of is_drift (outcomes gmail name (mailboxes gmail name ms)) ≡ false
  unfolding outcomes mailboxes
  outcomes-calm [] h h' = refl
  outcomes-calm ((false, st) ∷ ms) h h' = ground (arith, h.0.0)
  outcomes-calm ((true, st) ∷ ms) h h' = rw (settled st h.0 h'.0) (outcomes-calm ms h.1 h'.1)

  mailboxes-again :
      (ms : List (Bool × State gmail name))
      → All Reachable ms
      → All Reachable (mailboxes gmail name ms)
      → mailboxes gmail name (mailboxes gmail name ms) ≡ mailboxes gmail name ms
  unfolding mailboxes
  mailboxes-again [] h h' = refl
  mailboxes-again ((false, st) ∷ ms) h h' = ground (arith, h.0.0)
  mailboxes-again ((true, st) ∷ ms) h h' =
      rw (settled st h.0 h'.0, mailboxes-again ms h.1 h'.1) refl

  -- When every mailbox is active and create_label raises in none, in the first run and in the second, the
  -- second run tells "unchanged" and changes neither a row nor a label in any mailbox.
  pub sync_project_labels-again :
      (m : Bool × State gmail name) (ms : List (Bool × State gmail name))
      → All Reachable (m ∷ ms)
      → All Reachable (mailboxes gmail name (m ∷ ms))
      → sync_project_labels gmail name (sync_project_labels gmail name (m ∷ ms)).1
        ≡ (Action.unchanged, (sync_project_labels gmail name (m ∷ ms)).1)
  unfolding sync_project_labels action_of outcomes mailboxes
  sync_project_labels-again (false, st) ms h h' = ground (arith, h.0.0)
  sync_project_labels-again (true, st) ms h h' =
      rw (settled st h.0 h'.0, outcomes-calm ms h.1 h'.1, mailboxes-again ms h.1 h'.1) refl
