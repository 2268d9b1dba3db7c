-- ===== src/Dispatch/Asked.antt =====
-- What the status of a project asks for, and the lanes of a dispatch.
use gb_automations.Base.{
  String, Bool, true, false, List, [], ◌∷◌, ◌&&◌, if◌then◌else◌, ◌≡◌, refl, arith, In, here, there,
  In-cons, In-append, In-append_left, In-append_right, Bool-cases, inl, inr, or_text, strip,
}
use gb_automations.Queue.Request.{Request, for_frame_project_status_sync, for_frame_leveranse_sync}
use gb_automations.Worker.Engines.{returned}
use gb_automations.Dispatch.{
  ProjectPage, Oppgave, Notion, Flags, Engine, gmail, nas, frame, toggl, auto_provision,
  has_discipline, deliverables, enabled, provision, lane, status_lane, lanes,
}

abbrev pub status_of : ProjectPage → String
status_of page = or_text page.status ""

abbrev pub title_of : ProjectPage → String
title_of page = strip (or_text page.title "")

-- What the status of a project asks for.
pub data Asked (flags : Flags) (notion : Notion) (project : String) (page : ProjectPage)
    : Request → Type 0 where
  -- any status: the state of the Frame.io project
  status_change :
      flags.sync_frame ≡ true
      → Asked flags notion project page (for_frame_project_status_sync project)
  -- an engine of the status whose switch is on
  provisioned :
      (e : Engine)
      → auto_provision (status_of page) e ≡ true
      → enabled flags e ≡ true
      → Asked flags notion project page (provision project e)
  -- a deliverable of the project with a known discipline, where the status has Frame.io
  deliverable :
      (rows : List Oppgave) (row : Oppgave)
      → auto_provision (status_of page) frame ≡ true
      → flags.sync_frame ≡ true
      → notion.oppgaver_for_project project ≡ returned rows
      → In row rows
      → has_discipline row ≡ true
      → Asked flags notion project page (for_frame_leveranse_sync row.id)

pub deliverables-In :
    {row : Oppgave} {rows : List Oppgave}
    → In row rows
    → has_discipline row ≡ true
    → In (for_frame_leveranse_sync row.id) (deliverables rows)
unfolding deliverables
deliverables-In {row} (here {x} {xs} e) h = rw (e, h) (here refl)
deliverables-In {row} (there {x} {xs} m) h = elim (Bool-cases (has_discipline x)) [
  | inl q ↦ rw q (there (deliverables-In m h))
  | inr q ↦ rw q (deliverables-In m h)
]

pub deliverables-Asked :
    (P : Request → Type 0) (rows : List Oppgave)
    → ((row : Oppgave)
        → In row rows
        → has_discipline row ≡ true
        → P (for_frame_leveranse_sync row.id))
    → (q : Request) → In q (deliverables rows)
    → P q
unfolding deliverables
deliverables-Asked P [] h q = λ m. elim m [ ]
deliverables-Asked P (x ∷ xs) h q =
    let rest = deliverables-Asked P xs (λ row m. h row (there m)) in
    elim (Bool-cases (has_discipline x)) [
      | inl d ↦ rw d (In-cons P _ _ (h x (here refl) d) rest q)
      | inr d ↦ rw d (rest q)
    ]

-- The one call of a lane that is taken under a test.
lone-Asked :
    (P : Request → Type 0) (b : Bool) (x : Request)
    → (b ≡ true → P x)
    → (q : Request) → In q (if b then x ∷ [] else [])
    → P q
lone-Asked P true x h = In-cons P x [] (h refl) (λ r m. elim m [ ])
lone-Asked P false x h = λ q m. elim m [ ]

In-lone : {b : Bool} {x : Request} → b ≡ true → In x (if b then x ∷ [] else [])
In-lone h = rw h (here refl)

module _ (flags : Flags) (notion : Notion) (project : String) (page : ProjectPage) where
  abbrev Asks : Request → Type 0
  Asks = Asked flags notion project page

  lane-Asked : (e : Engine) (q : Request) → In q (lane flags (status_of page) project e) → Asks q
  unfolding lane
  lane-Asked e =
      lone-Asked Asks (auto_provision (status_of page) e && enabled flags e) (provision project e)
        (λ h. Asked.provisioned e (ground arith) (ground arith))

  status_lane-Asked : (q : Request) → In q (status_lane flags project) → Asks q
  unfolding status_lane
  status_lane-Asked = lone-Asked Asks flags.sync_frame _ Asked.status_change

  pub lanes-Asked : (q : Request) → In q (lanes flags (status_of page) project) → Asks q
  unfolding lanes
  lanes-Asked = In-append Asks _ _ status_lane-Asked (
      In-append Asks _ _ (lane-Asked gmail) (
        In-append Asks _ _ (lane-Asked nas)
          (In-append Asks _ _ (lane-Asked toggl) (lane-Asked frame))))

  pub In-lane :
      (e : Engine)
      → auto_provision (status_of page) e ≡ true
      → enabled flags e ≡ true
      → In (provision project e) (lane flags (status_of page) project e)
  unfolding lane
  In-lane e a b = rw (a, b) (here refl)

  pub In-lanes :
      (e : Engine)
      → In (provision project e) (lane flags (status_of page) project e)
      → In (provision project e) (lanes flags (status_of page) project)
  unfolding lanes
  In-lanes gmail m = In-append_right (status_lane flags project) (In-append_left _ m)
  In-lanes nas m =
      In-append_right (status_lane flags project)
        (In-append_right (lane flags (status_of page) project gmail) (In-append_left _ m))
  In-lanes toggl m = In-append_right (status_lane flags project) (
      In-append_right (lane flags (status_of page) project gmail)
        (In-append_right (lane flags (status_of page) project nas) (In-append_left _ m)))
  In-lanes frame m = In-append_right (status_lane flags project) (
      In-append_right (lane flags (status_of page) project gmail) (
        In-append_right (lane flags (status_of page) project nas)
          (In-append_right (lane flags (status_of page) project toggl) m)))

  pub In-status_lane :
      flags.sync_frame ≡ true
      → In (for_frame_project_status_sync project) (lanes flags (status_of page) project)
  unfolding lanes status_lane
  In-status_lane h = In-append_left {xs = status_lane flags project} _ (In-lone h)
