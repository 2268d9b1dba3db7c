-- ===== src/Dispatch/Laws.antt =====
-- What a dispatch puts on the queue.
use gb_automations.Base.{
  ℕ, String, Bool, true, false, List, ◌&&◌, if◌then◌else◌, ◌≡◌, refl, arith, In, In-append,
  In-append_left, In-append_right,
}
use gb_automations.Schema.{Db}
use gb_automations.Queue.Request.{Request, wanted}
use gb_automations.Queue.Owed.{owed}
use gb_automations.Worker.Engines.{Attempt, returned, raised}
use gb_automations.Worker.World.{enqueue_all}
use gb_automations.Worker.Enqueued.{enqueue_all-In}
use gb_automations.Dispatch.Asked.{
  Asked, status_of, title_of, deliverables-In, deliverables-Asked, lanes-Asked, In-lane, In-lanes,
  In-status_lane,
}
use gb_automations.Dispatch.{
  ProjectPage, Oppgave, Notion, Flags, frame, auto_provision, is_placeholder, lanes, fan_out,
  dispatch_page, dispatch_project_status,
}

-- The calls of one of two ways, by a test.
module _ {A : Type 0} (x y : A × List Request) where
  either-Asked :
      (P : Request → Type 0) (b : Bool)
      → (b ≡ true → (q : Request) → In q x.1 → P q)
      → (b ≡ false → (q : Request) → In q y.1 → P q)
      → (q : Request) → In q (if b then x else y).1
      → P q
  either-Asked P true f g = f refl
  either-Asked P false f g = g refl

  In-either :
      (b : Bool) {q : Request}
      → (b ≡ true → In q x.1)
      → (b ≡ false → In q y.1)
      → In q (if b then x else y).1
  In-either true f g = f refl
  In-either false f g = g refl

module _ (flags : Flags) (notion : Notion) (project : String) (page : ProjectPage) where
  abbrev Asks : Request → Type 0
  Asks = Asked flags notion project page

  fan_out-Asked :
      auto_provision (status_of page) frame ≡ true
      → flags.sync_frame ≡ true
      → (o : Attempt (List Oppgave)) → notion.oppgaver_for_project project ≡ o
      → (q : Request) → In q (fan_out o (lanes flags (status_of page) project)).1
      → Asks q
  unfolding fan_out
  fan_out-Asked a b (returned rows) e =
      In-append Asks _ _ (lanes-Asked flags notion project page)
        (deliverables-Asked Asks rows (λ row m d. Asked.deliverable rows row a b e m d))
  fan_out-Asked a b (raised x) e = (lanes-Asked flags notion project page)

  -- A dispatch asks only for what the status asks for, and for nothing while the title is the
  -- template's.
  page-Asked :
      (q : Request)
      → In q (dispatch_page flags notion project page).1
      → (is_placeholder (title_of page) ≡ false) × Asks q
  unfolding dispatch_page
  page-Asked =
      either-Asked _ _ (λ q. (is_placeholder (title_of page) ≡ false) × Asks q)
        (is_placeholder (title_of page)) (λ _ q m. elim m [ ])
        (λ t q m. (
          t,
          either-Asked _ _ Asks (auto_provision (status_of page) frame && flags.sync_frame)
              (λ h. fan_out-Asked (ground arith) (ground arith) _ refl)
              (λ _. (lanes-Asked flags notion project page)) q m,
        ))

  In-fan_out :
      (o : Attempt (List Oppgave)) {q : Request}
      → In q (lanes flags (status_of page) project)
      → In q (fan_out o (lanes flags (status_of page) project)).1
  unfolding fan_out
  In-fan_out (returned rows) m = In-append_left _ m
  In-fan_out (raised e) m = m

  In-page :
      {q : Request}
      → is_placeholder (title_of page) ≡ false
      → In q (lanes flags (status_of page) project)
      → In q (dispatch_page flags notion project page).1
  unfolding dispatch_page
  In-page {q} t m =
      In-either _ _ (is_placeholder (title_of page)) (λ p. cc)
        (λ _.
          In-either _ _ (auto_provision (status_of page) frame && flags.sync_frame)
            (λ _. In-fan_out _ m) (λ _. m))

  -- The calls that the status asks for are made.
  Asked-In :
      {q : Request}
      → is_placeholder (title_of page) ≡ false
      → Asks q
      → In q (dispatch_page flags notion project page).1
  unfolding dispatch_page fan_out
  Asked-In t (Asked.status_change h) = In-page t (In-status_lane flags notion project page h)
  Asked-In t (Asked.provisioned e a b) =
      In-page t (In-lanes flags notion project page e (In-lane flags notion project page e a b))
  Asked-In t (Asked.deliverable rows row a b e m d) =
      In-either _ _ (is_placeholder (title_of page)) (λ p. cc)
        (λ _.
          In-either _ _ (auto_provision (status_of page) frame && flags.sync_frame)
            (λ _.
              rw e (In-append_right (lanes flags (status_of page) project) (deliverables-In m d)))
            (λ f. absurd (ground arith)))

dispatch-eq :
    (flags : Flags) (notion : Notion) (project : String) (page : ProjectPage)
    → notion.get_page project ≡ returned page
    → dispatch_project_status flags notion project ≡ dispatch_page flags notion project page
unfolding dispatch_project_status
dispatch-eq flags notion project page e = rw (e, dispatch_project_status) refl

-- A dispatch that reads the page asks only for what the status asks for, and for nothing while
-- the title is the template's.
pub dispatch-Asked :
    (flags : Flags) (notion : Notion) (project : String) (page : ProjectPage) (q : Request)
    → notion.get_page project ≡ returned page
    → In q (dispatch_project_status flags notion project).1
    → (is_placeholder (title_of page) ≡ false) × Asked flags notion project page q
dispatch-Asked flags notion project page q e m =
    page-Asked flags notion project page q (rw (dispatch-eq flags notion project page e) at m)

-- A dispatch that reads the page of a named project leaves everything that the status asks for
-- owed, also where the listing of the deliverables raises.
pub dispatch-owed :
    (flags : Flags) (notion : Notion) (project : String) (page : ProjectPage) (now : ℕ)
    (q : Request) (db : Db)
    → notion.get_page project ≡ returned page
    → is_placeholder (title_of page) ≡ false
    → Asked flags notion project page q
    → wanted q ≡ true
    → owed q (enqueue_all now (dispatch_project_status flags notion project).1 db).rows ≡ true
dispatch-owed flags notion project page now q db e t h w =
    enqueue_all-In now db
      (rw (dispatch-eq flags notion project page e) (Asked-In flags notion project page t h)) w
