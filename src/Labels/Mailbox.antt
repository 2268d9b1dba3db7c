-- ===== src/Labels/Mailbox.antt =====
-- sync/sync_labels.py: the label of a project in one mailbox. The mailboxes do not touch each other, so
-- a run is the run of each. Gmail's labels are an interface with its documented laws.
pub mod Laws
use gb_automations.Base.{String, Bool, true, false, Option, none, some, if◌then◌else◌, str_eq, ◌≡◌}
use gb_automations.Worker.Engines.{Attempt, returned, raised}

-- labels.get: the name, a 404, or another error
pub data Live : Type 0 where
  live : String → Live
  missing : Live
  broken : Live

-- A mailbox's labels: a label by its id; create_label, which finds the label of the name or makes it, and
-- tells which (`_created`); and update_label_name.
pub record Gmail (S : Type 0) : Type 0 where
  pub get_label : S → String → Live
  pub create_label : S → String → Attempt ((String × Bool) × S)
  pub update_label_name : S → String → String → Attempt S

-- Names are unique in a mailbox, and a call that returns did what it says.
pub record IsGmail {S : Type 0} (gmail : Gmail S) : Type 0 where
  pub created :
      (s s' : S) (name id : String) (new : Bool)
      → gmail.create_label s name ≡ returned ((id, new), s')
      → gmail.get_label s' id ≡ live name
  pub finds :
      (s s' : S) (name id other : String) (new : Bool)
      → gmail.get_label s id ≡ live name
      → gmail.create_label s name ≡ returned ((other, new), s')
      → (other ≡ id) × (new ≡ false) × (s' ≡ s)
  pub renamed :
      (s s' : S) (id name : String)
      → gmail.update_label_name s id name ≡ returned s'
      → gmail.get_label s' id ≡ live name

-- A row of project_labels.
pub record ProjectLabel : Type 0 where
  pub gmail_label_id : String
  pub current_name : String

-- The list of the result in which a mailbox stands.
pub data Outcome : Type 0 where
  no_row patched healed unchanged : Outcome
  created already_present not_active : Outcome
  failed : Outcome

module _ {S : Type 0} (gmail : Gmail S) (name : String) where
  abbrev pub State : Type 0
  State = Option ProjectLabel × S

  abbrev pub row_of : String → ProjectLabel
  row_of id = record { gmail_label_id = id; current_name = name }

  abbrev pub heal : Attempt ((String × Bool) × S) → State → Outcome × State
  heal (returned ((id, new), s')) st = (healed, (some (row_of id), s'))
  heal (raised e) st = (failed, st)

  abbrev pub patch : String → Attempt S → State → Outcome × State
  patch id (returned s') st = (patched, (some (row_of id), s'))
  patch id (raised e) st = (failed, st)

  -- _one of _reconcile_label_for_all_users, by the live label, with the writes that follow
  unfoldable pub reconcile_live : Live → ProjectLabel → S → Outcome × State
  reconcile_live broken row s = (failed, (some row, s))
  reconcile_live missing row s = heal (gmail.create_label s name) (some row, s)
  reconcile_live (live actual) row s =
      if str_eq actual name
      then (unchanged, (some row, s))
      else patch row.gmail_label_id (gmail.update_label_name s row.gmail_label_id name)
          (some row, s)

  unfoldable pub reconcile_label : State → Outcome × State
  unfolding reconcile_live
  reconcile_label (none, s) = (no_row, (none, s))
  reconcile_label (some row, s) = reconcile_live (gmail.get_label s row.gmail_label_id) row s

  abbrev pub upsert : Attempt ((String × Bool) × S) → State → Outcome × State
  upsert (returned ((id, true), s')) st = (created, (some (row_of id), s'))
  upsert (returned ((id, false), s')) st = (already_present, (some (row_of id), s'))
  upsert (raised e) st = (failed, st)

  -- _one of _create_label_for_all_users, for a mailbox that is active or not, with the upsert
  unfoldable pub create_label_for : Bool → State → Outcome × State
  create_label_for false st = (not_active, st)
  create_label_for true st = upsert (gmail.create_label st.1 name) st

  -- sync_project_labels in one mailbox: what both steps tell, and the state
  unfoldable pub sync_labels : Bool → State → (Outcome × Outcome) × State
  unfolding reconcile_label create_label_for
  sync_labels active st =
      let r = reconcile_label st in let c = create_label_for active r.1 in ((r.0, c.0), c.1)
