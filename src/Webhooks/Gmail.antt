-- ===== src/Webhooks/Gmail.antt =====
-- The Gmail push receiver: the threads of a mailbox's history that concern a project are put on the
-- queue, and the history cursor advances with them. The state is the queue's table and the cursors;
-- the token check, Gmail's answers and the cache of known threads are parameters.
pub mod Laws
pub mod Handover
use gb_automations.Base.{
  ℕ, String, Bool, true, false, Option, none, some, List, [], ◌∷◌, ◌++◌, ◌&&◌, not, any_of, keep_if,
  ok, err, if◌then◌else◌, truthy, present, str_eq, sorted_set, or_text,
}
use gb_automations.Schema.{Db}
use gb_automations.Queue.Enqueue.{enqueue_threads}
use gb_automations.Worker.Engines.{Attempt, returned, raised}

-- A change of the history: the message's threadId, and the labelIds of the message (messagesAdded) or of
-- the change (labelsAdded, labelsRemoved).
pub record Change : Type 0 where
  pub thread_id : Option String
  pub label_ids : List String

pub record Entry : Type 0 where
  pub messages_added : List Change
  pub labels_added : List Change
  pub labels_removed : List Change

abbrev pub contains : List String → String → Bool
contains ls s = any_of (str_eq s) ls

-- project_label_ids.intersection(…), as a truth value
unfoldable pub is_filed : List String → Change → Bool
is_filed project c = any_of (contains project) c.label_ids

-- The thread ids of the changes that pass a test, each named.
unfoldable pub named : (Change → Bool) → List Change → List String
named test [] = []
named test (c ∷ cs) =
    let rest = named test cs in
    if present c.thread_id && test c then or_text c.thread_id "" ∷ rest else rest

-- `definite` of _collect_project_thread_ids
unfoldable pub definite : List String → List Entry → List String
unfolding is_filed named
definite project [] = []
definite project (e ∷ es) =
    named (is_filed project) e.messages_added
    ++ named (is_filed project) e.labels_added
    ++ named (is_filed project) e.labels_removed
    ++ definite project es

-- `candidates` of _collect_project_thread_ids
unfoldable pub candidates : List String → List Entry → List String
unfolding is_filed named
candidates project [] = []
candidates project (e ∷ es) =
    named (λ c. not (is_filed project c)) e.messages_added ++ candidates project es

pub record Answers : Type 0 where
  pub list_history : String → String → Attempt (List Entry)
  pub project_label_ids : String → Attempt (List String)
  -- whether a message of the thread was synced before
  pub is_known : String → Bool

-- sorted(definite | known), as the set that it is
unfoldable pub thread_ids : (String → Bool) → List String → List Entry → List String
unfolding definite candidates
thread_ids is_known project history =
    let sure = definite project history in
    sorted_set
      (sure ++ keep_if (λ t. not (contains sure t) && is_known t) (candidates project history))

-- What the delivery is, up to the decoded data.
pub data Delivery : Type 0 where
  -- no valid token; no JSON envelope; no data in it; data that does not decode; bytes or JSON at which
  -- the handler raises
  forged bad_envelope empty bad_data broken : Delivery
  -- emailAddress in lower case, and str(historyId), either empty where it is missing
  push : String → String → Delivery

pub record State : Type 0 where
  pub db : Db
  pub cursors : String → Option String

abbrev pub save_history_cursor : String → String → (String → Option String) → String → Option String
save_history_cursor email id cursors q = if str_eq q email then some id else cursors q

-- The one transaction of the enqueue and the cursor.
unfoldable pub hand_over : ℕ → String → String → List String → State → ℕ × State
hand_over now email id ids s = elim (enqueue_threads now email ids false s.db) [
  | ok r ↦ (200, record { db = r.1; cursors = save_history_cursor email id s.cursors })
  | err e ↦ (503, s)
]

abbrev pub is_empty : List String → Bool
is_empty [] = true
is_empty (t ∷ ts) = false

unfoldable pub push_threads : ℕ → String → String → List String → State → ℕ × State
unfolding hand_over
push_threads now email id ids s =
    if is_empty ids
    then (200, record s { cursors = save_history_cursor email id s.cursors })
    else hand_over now email id ids s

-- With the history and the project's labels; a label query that raises is a status 500.
unfoldable pub push_history :
    ℕ
    → (String → Bool)
    → String
    → String
    → Attempt (List Entry)
    → Attempt (List String)
    → State
    → ℕ × State
unfolding thread_ids push_threads
push_history now is_known email id (raised e) labels s = (502, s)
push_history now is_known email id (returned history) (raised e) s = (500, s)
push_history now is_known email id (returned history) (returned project) s =
    push_threads now email id (thread_ids is_known project history) s

unfoldable pub push_from : ℕ → Answers → String → String → Option String → State → ℕ × State
unfolding push_history
push_from now answers email id cursor s =
    if present cursor
    then push_history now answers.is_known email id (answers.list_history email (or_text cursor ""))
        (answers.project_label_ids email) s
    else (200, record s { cursors = save_history_cursor email id s.cursors })

-- The status of the answer, and the state afterwards.
unfoldable pub gmail_webhook : ℕ → Answers → Delivery → State → ℕ × State
unfolding push_from
gmail_webhook now answers forged s = (401, s)
gmail_webhook now answers bad_envelope s = (400, s)
gmail_webhook now answers empty s = (200, s)
gmail_webhook now answers bad_data s = (400, s)
gmail_webhook now answers broken s = (500, s)
gmail_webhook now answers (push email id) s =
    if truthy email && truthy id
    then push_from now answers email id (s.cursors email) s
    else (200, s)
