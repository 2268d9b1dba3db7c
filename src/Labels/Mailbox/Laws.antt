-- ===== src/Labels/Mailbox/Laws.antt =====
-- sync/sync_labels.py: what a run leaves in a mailbox, and that the next run changes nothing.
use text.Mathlib.TextPositions.{eq_refl}
use gb_automations.Base.{
  ◌∙◌, arith, String, Bool, true, false, Option, some, ◌≡◌, refl, ap, inl, inr, Bool-cases, str_eq,
  str_eq_iff,
}
use gb_automations.Worker.Engines.{Attempt, returned, raised}
use gb_automations.Labels.Mailbox.{
  live, Gmail, IsGmail, ProjectLabel, failed, unchanged, already_present, State, row_of, patch,
  upsert, reconcile_live, reconcile_label, create_label_for, sync_labels,
}

module _ {S : Type 0} (gmail : Gmail S) (is : IsGmail gmail) (name : String) where
  -- The row stands for a label of the mailbox that has the name now.
  abbrev pub Labelled : State gmail name → Type 0
  Labelled st =
      (id : String) × (st.0 ≡ some (row_of gmail name id)) × (gmail.get_label st.1 id ≡ live name)

  upsert-Labelled :
      (st : State gmail name) (a : Attempt ((String × Bool) × S))
      → gmail.create_label st.1 name ≡ a
      → ¬ ((upsert gmail name a st).0 ≡ failed)
      → Labelled (upsert gmail name a st).1
  upsert-Labelled st (returned ((id, true), s')) e h = (id, refl, is.created st.1 s' name id true e)
  upsert-Labelled st (returned ((id, false), s')) e h =
      (id, refl, is.created st.1 s' name id false e)
  upsert-Labelled st (raised x) e h = absurd (h refl)

  -- A run for an active mailbox whose second step does not fail leaves a row that has the name and whose
  -- label in the mailbox has it too, whatever the row and the labels were before and whatever the first
  -- step came to.
  pub sync_labels-Labelled :
      (st : State gmail name)
      → ¬ ((sync_labels gmail name true st).0.1 ≡ failed)
      → Labelled (sync_labels gmail name true st).1
  unfolding sync_labels create_label_for
  sync_labels-Labelled st h = upsert-Labelled (reconcile_label gmail name st).1 _ refl h

  -- Where a label of the name is there, create_label that returns finds it.
  upsert-found :
      (r : Option ProjectLabel) (s : S) (id : String) (a : Attempt ((String × Bool) × S))
      → gmail.get_label s id ≡ live name
      → gmail.create_label s name ≡ a
      → ¬ ((upsert gmail name a (r, s)).0 ≡ failed)
      → upsert gmail name a (r, s) ≡ (already_present, (some (row_of gmail name id), s))
  upsert-found r s id (returned ((other, true), s')) l e h =
      let f = is.finds s s' name id other true l e in ground (arith, f.1)
  upsert-found r s id (returned ((other, false), s')) l e h =
      let f = is.finds s s' name id other false l e in rw (f.0, f.2) refl
  upsert-found r s id (raised x) l e h = absurd (h refl)

  -- A run on a mailbox whose row stands for a label with the name tells "unchanged" and
  -- "already present" and changes neither the row nor a label, where create_label does not raise.
  pub sync_labels-again :
      (s : S) (id : String)
      → gmail.get_label s id ≡ live name
      → ¬ ((sync_labels gmail name true (some (row_of gmail name id), s)).0.1 ≡ failed)
      → sync_labels gmail name true (some (row_of gmail name id), s)
        ≡ ((unchanged, already_present), (some (row_of gmail name id), s))
  unfolding sync_labels create_label_for reconcile_label reconcile_live
  sync_labels-again s id l =
      rw (l, eq_refl name)
        (λ h. let u = upsert-found (some (row_of gmail name id)) s id _ l refl h in rw u refl)

  patch-keeps :
      (row : ProjectLabel) (s : S) (a : Attempt S)
      → gmail.update_label_name s row.gmail_label_id name ≡ a
      → ¬ ((patch gmail name row.gmail_label_id a (some row, s)).0 ≡ failed)
      → gmail.get_label (patch gmail name row.gmail_label_id a (some row, s)).1.1 row.gmail_label_id
        ≡ live name
  patch-keeps row s (returned s') e h = is.renamed s s' row.gmail_label_id name e
  patch-keeps row s (raised x) e h = absurd (h refl)

  reconcile_live-keeps :
      (row : ProjectLabel) (s : S) (actual : String)
      → gmail.get_label s row.gmail_label_id ≡ live actual
      → ¬ ((reconcile_live gmail name (live actual) row s).0 ≡ failed)
      → gmail.get_label (reconcile_live gmail name (live actual) row s).1.1 row.gmail_label_id
        ≡ live name
  unfolding reconcile_live
  reconcile_live-keeps row s actual l = elim (Bool-cases (str_eq actual name)) [
    | inl e ↦ rw e (λ h. l ∙ ap live ((str_eq_iff actual name).0 e))
    | inr e ↦ rw e (patch-keeps row s _ refl)
  ]

  -- A label that is there under whatever name is renamed and not made again: after a run for an active
  -- mailbox in which neither step fails, the row stands for the label that it stood for, and that label
  -- has the name.
  pub sync_labels-keeps :
      (row : ProjectLabel) (s : S) (actual : String)
      → gmail.get_label s row.gmail_label_id ≡ live actual
      → ¬ ((sync_labels gmail name true (some row, s)).0.0 ≡ failed)
      → ¬ ((sync_labels gmail name true (some row, s)).0.1 ≡ failed)
      → ((sync_labels gmail name true (some row, s)).1.0
          ≡ some (row_of gmail name row.gmail_label_id))
        × (gmail.get_label (sync_labels gmail name true (some row, s)).1.1 row.gmail_label_id
            ≡ live name)
  unfolding sync_labels create_label_for reconcile_label
  sync_labels-keeps row s actual l = rw l (λ h h'.
      let k = reconcile_live-keeps row s actual l h in
      let st = (reconcile_live gmail name (live actual) row s).1 in
      let u = upsert-found st.0 st.1 row.gmail_label_id _ k refl h' in (ap (λ x. x.1.0) u, rw u k))
