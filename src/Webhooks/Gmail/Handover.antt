-- ===== src/Webhooks/Gmail/Handover.antt =====
-- No thread of a project is lost when the cursor advances.
use text.Mathlib.TextPositions.{eq_refl}
use gb_automations.Base.{
  ℕ, String, Bool, true, false, some, List, [], ◌∷◌, ◌≡◌, refl, ◌&&◌, ◌⊎◌, inl, inr, any_of, Result,
  ok, err, In, All-In, Bool-cases, truthy, present, str_eq, or_text,
}
use gb_automations.Schema.{Db}
use gb_automations.Schema.Valid.{IsValid}
use gb_automations.Queue.Enqueue.{enqueue_threads}
use gb_automations.Queue.Threads.{stands_for, enqueue_threads_lem}
use gb_automations.Worker.Engines.{Attempt, returned, raised}
use gb_automations.Webhooks.Gmail.Laws.{Wanted, thread_ids-In, keep_if-In}
use gb_automations.Webhooks.Gmail.{
  Entry, Answers, thread_ids, push, State, save_history_cursor, hand_over, push_threads,
  push_history, push_from, gmail_webhook,
}

-- The cursor is at the new id, and each thread of the list with an id is owed.
abbrev pub Handed : String → String → List String → ℕ × State → Type 0
Handed email id ids r =
    (r.0 ≡ 200)
    × (r.1.cursors email ≡ some id)
    × IsValid r.1.db
    × ((tid : String)
        → In tid ids
        → truthy tid ≡ true
        → any_of (stands_for email tid) r.1.db.rows ≡ true)

hand_over-Handed :
    (now : ℕ) (email id : String) (ids : List String) (s : State)
    → IsValid s.db
    → Handed email id ids (hand_over now email id ids s)
unfolding hand_over
hand_over-Handed now email id ids s v =
    let (n, db, runs, valid, l, all) = enqueue_threads_lem now email false ids s.db v in
    rw (hand_over, runs)
      (
        refl,
        rw (eq_refl email) refl,
        valid,
        λ tid m h.
            All-In (λ t. any_of (stands_for email t) db.rows ≡ true) (keep_if-In truthy ids tid m h)
              all,
      )

push_threads-Handed :
    (now : ℕ) (email id : String) (ids : List String) (s : State)
    → IsValid s.db
    → Handed email id ids (push_threads now email id ids s)
unfolding push_threads
push_threads-Handed now email id [] s v = (refl, rw (eq_refl email) refl, v, λ tid m h. elim m [ ])
push_threads-Handed now email id (t ∷ ts) s v = hand_over-Handed now email id (t ∷ ts) s v

-- A push of a mailbox with a cursor, whose history and labels are read, is answered with 200, sets the
-- cursor to its history id, keeps the table well-formed, and leaves an active row for each thread
-- that the history files under a project and for each known thread with a new message.
pub gmail_webhook-owed :
    (now : ℕ) (answers : Answers) (email id last : String) (history : List Entry)
    (project : List String) (s : State)
    → IsValid s.db
    → (truthy email && truthy id) ≡ true
    → s.cursors email ≡ some last
    → truthy last ≡ true
    → answers.list_history email last ≡ returned history
    → answers.project_label_ids email ≡ returned project
    → let r = gmail_webhook now answers (push email id) s in
      (r.0 ≡ 200)
      × (r.1.cursors email ≡ some id)
      × IsValid r.1.db
      × ((tid : String)
          → truthy tid ≡ true
          → Wanted answers.is_known project history tid
          → any_of (stands_for email tid) r.1.db.rows ≡ true)
unfolding gmail_webhook push_from push_history
gmail_webhook-owed now answers email id last history project s v named_ids cursor l h p =
    let ids = thread_ids answers.is_known project history in
    let r = push_threads-Handed now email id ids s v in
    rw (named_ids, cursor, l, h, p)
      (r.0, r.1, r.2, λ tid t w. r.3 tid (thread_ids-In answers.is_known project history tid t w) t)

-- The state is as before, but for the mailbox's cursor where the status is 200.
abbrev pub Safe : String → State → ℕ × State → Type 0
Safe email s r =
    ((r.0 ≡ 200) ⊎ (r.1 ≡ s))
    × ((q : String) → str_eq q email ≡ false → r.1.cursors q ≡ s.cursors q)

push_threads-Safe :
    (now : ℕ) (email id : String) (ids : List String) (s : State)
    → Safe email s (push_threads now email id ids s)
unfolding push_threads hand_over
push_threads-Safe now email id [] s = (inl refl, λ q h. rw h refl)
push_threads-Safe now email id (t ∷ ts) s = go (enqueue_threads now email (t ∷ ts) false s.db)
  where
    go :
        (r : Result (ℕ × Db))
        → Safe email s (elim r [
          | ok a ↦ (200, record { db = a.1; cursors = save_history_cursor email id s.cursors })
          | err e ↦ (503, s)
        ])
    go (ok a) = (inl refl, λ q h. rw h refl)
    go (err e) = (inr refl, λ q h. refl)

push_history-Safe :
    (now : ℕ) (is_known : String → Bool) (email id : String) (history : Attempt (List Entry))
    (labels : Attempt (List String)) (s : State)
    → Safe email s (push_history now is_known email id history labels s)
unfolding push_history
push_history-Safe now is_known email id (raised e) labels s = (inr refl, λ q h. refl)
push_history-Safe now is_known email id (returned history) (raised e) s = (inr refl, λ q h. refl)
push_history-Safe now is_known email id (returned history) (returned project) s =
    push_threads-Safe now email id (thread_ids is_known project history) s

-- Whatever fails, a push that is not answered with 200 changes nothing, so that its redelivery finds the
-- cursor where it was, and no push moves the cursor of another mailbox.
pub gmail_webhook-Safe :
    (now : ℕ) (answers : Answers) (email id : String) (s : State)
    → Safe email s (gmail_webhook now answers (push email id) s)
unfolding gmail_webhook push_from
gmail_webhook-Safe now answers email id s = elim (Bool-cases (truthy email && truthy id)) [
  | inr h ↦ rw (gmail_webhook, h) (inl refl, λ q g. refl)
  | inl h ↦ elim (Bool-cases (present (s.cursors email))) [
    | inr c ↦ rw (gmail_webhook, h, push_from, c) (inl refl, λ q g. rw g refl)
    | inl c ↦
        rw (gmail_webhook, h, push_from, c)
          (push_history-Safe now answers.is_known email id
            (answers.list_history email (or_text (s.cursors email) ""))
            (answers.project_label_ids email) s)
  ]
]
