-- ===== src/Lib.antt =====
-- The Goldbox automation hub: the durable work queue and its worker.
--
-- Webhooks, timers and operators put work on a queue, the table `sync_tasks` in Postgres. The
-- consumers of the worker claim one task at a time, run the sync engine of its type against the
-- other systems (Gmail, Notion, Drive, Frame.io, Toggl, Fiken), and record the outcome: done, a
-- retry after a delay, or failed for good. The Notion mirror shows the state of the queue.
--
--   Base      Boolean tests, lists, the text operations of Python, results and transactions.
--   Schema    src/gb_automations/models.py (SyncTask) with the two indexes that only the migrations
--             create. Rows: the columns, the check constraints as data types, the partial unique
--             indexes. Statements: INSERT … ON CONFLICT DO NOTHING, UPDATE and DELETE over the list
--             of rows. Unique, Valid: the invariant of the table.
--   Queue     src/gb_automations/sync/queue.py. Enqueue: the enqueue_* functions; Request: the
--             seventeen calls of one page as data; Owed, Threads: what they leave. Claim: claim_one.
--             Outcome: mark_done and mark_failed. Recovery: reset_in_progress, requeue_failed,
--             set_task_project. Rollup: project_sync_state and status_counts.
--   Mirror    src/gb_automations/sync/queue_mirror.py, by its requests to Notion. Bounds:
--             the length of the subject it shows.
--   Worker    src/gb_automations/jobs/queue_worker.py. Engines: what the worker sees of an engine,
--             and describe_error of obs.py. World: the shared state, claim and outcome.
--             ProjectTasks, PageTasks, ThreadTask: the handlers and _process. Consumer: a round of
--             the loop. Settles: total correctness of the handlers. System: several consumers.
--             Enqueued: what the enqueue calls of a run leave.
--   Dispatch  src/gb_automations/sync/dispatch_project_status.py: one engine, whose enqueue calls are
--             computed from the project's page. dispatch_run is the engine as the worker calls it.
--   Leveranse src/gb_automations/sync/sync_leveranse_status.py: the recheck of a deliverable's status
--             from its corrections, with set_oppgave_status of src/gb_automations/clients/notion.py.
--             Grounds, Laws: what it may write. Active, Settled: what it leaves.
--   Faktura   src/gb_automations/sync/sync_fiken_invoice.py. Billing: which rows are billed and how
--             much, with what graduation (src/gb_automations/sync/graduate_project.py) writes to a
--             row; Totals: what is billed in the end. Drafts: the audit rows of the drafts, their
--             check against Fiken and the reset; Laws, Healing.
--   Toggl     src/gb_automations/sync/sync_toggl_hours.py. Durations: the Duration cells. Aggregate:
--             the cells by person, project and day, and the Toggl side of the check of the hours.
--             Reconcile: a year's rows against the cells; Year: the run; Settled, Again, Twice: what
--             it leaves, and that the next run has nothing to do.
--   Bridge    the engines that keep Notion and Frame.io in step. FileStatus:
--             src/gb_automations/sync/sync_frame_file_status.py. Completed:
--             src/gb_automations/sync/sync_oppgave_done.py and sync_frame_project_status.py.
--   Webhooks  src/gb_automations/routes/webhooks.py. Gmail: the push receiver with the history
--             cursors. Notion: ten receivers by the calls they make. Frame: the signed receiver.
--             Digest: hmac.compare_digest, which raises for texts that are not ASCII.
--   Labels    Path: src/gb_automations/utils/labels.py. Mailbox:
--             src/gb_automations/sync/sync_labels.py in one mailbox, with Gmail as an interface.
--             Project: its run over all mailboxes.
--   Tests     the laws on concrete tables.
--
-- A function of queue.py is a transaction on the table, which commits or raises and rolls back. A
-- raised IntegrityError is the value `unique_violation`; an ON CONFLICT clause that names no index
-- of the table is `no_matching_index`. The statements have the documented meaning of SQL on the
-- table, and the partial unique indexes are enforced after each statement. A time is a number of
-- seconds, and now() is one value in a transaction. The widths of the text columns (64 and 254
-- characters) are left out: ids and addresses are taken to fit them.
--
-- The worker's coroutines keep what they committed when they raise. An engine is a parameter: for
-- each of its arguments it has an outcome (a result or an exception), the enqueue calls that it
-- makes, and the time it takes. No law assumes anything of it. The requests to Notion never raise,
-- since the mirror swallows what its client raises. The database itself is taken to be reachable.
--
-- The system interleaves whole transactions. A claim gets the set of rows that other transactions
-- have locked (FOR UPDATE SKIP LOCKED) as a parameter. Boot recovery is not a step of the system.
-- The resolving step is one of the task types whose unique index has not the project among its
-- columns, which are the types for which the worker makes that call.
--
-- Within the round of one consumer no other transaction comes between its steps; the interleavings
-- of several are the subject of System, where the engines' own work does not show.
--
-- The engines of Leveranse, Bridge and Toggl and the receivers of Webhooks are functions of a
-- state (the statuses, the rows of a database, the queue with the cursors) and of the answers of
-- the other systems, which are parameters: each is a value or an exception. The amounts of an
-- invoice are exact, in millionths of a krone, where the code uses floating point; hours are rounded
-- by a parameter. Python's full case tables and the parsing of dates are parameters too. The notes
-- of results, which are text for the log, are left out.
--
-- There is no fuel: every definition is a recursion on its data, and the round of a consumer is a
-- composition of total steps. Not modelled: waiting and shutdown in the loop of a consumer, logging,
-- queue_counts, the insides of the engines that are not named above, and the clients. Of the
-- receivers: the two rebuild buttons and the check of Google's token. Of the invoices: descriptions,
-- products and the payload. Of the hours: the window, the fetch by years and the caches. Of the labels: the
-- reading of the page, the lists of addresses and the address that is written to Notion. str.lower is
-- written out as far as the discipline labels need it, and str.isdigit for ASCII.
pub mod Base
pub mod Schema
pub mod Queue
pub mod Mirror
pub mod Worker
pub mod Dispatch
pub mod Leveranse
pub mod Faktura
pub mod Toggl
pub mod Bridge
pub mod Webhooks
pub mod Labels
mod Tests
