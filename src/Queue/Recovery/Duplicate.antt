-- ===== src/Queue/Recovery/Duplicate.antt =====
-- Two rows that a retry would bring under one key.
use mathlib.Core.Path.{subst}
use gb_automations.Base.{
  ℕ, String, Bool, true, false, Option, none, some, List, [], ◌∷◌, ◌≡◌, ◌≢◌, refl, sym, ap, ◌∙◌,
  arith, In, here, there, All-In, ◌&&◌, ◌||◌, str_eq_iff, Bool-cases, inl, inr, same_text,
}
use gb_automations.Schema.{
  SyncTask, TaskType, KeyColumns, is_failed, is_active, conflicts, update_rows, none_conflicts,
  unique_active, live_index, same_type, same_type_iff, same_key,
}
use gb_automations.Schema.Unique.{and_parts, step}
use gb_automations.Schema.Valid.{DistinctIds}
use gb_automations.Queue.Recovery.{is_thread, requeued}

-- The rows that the retry selects.
abbrev pub selected : Option String → SyncTask → Bool
selected thread_id r = is_failed r.status && is_thread thread_id r

-- The row is active once the retry has run.
abbrev pub revived : Option String → SyncTask → Bool
revived thread_id r = is_active r.status || selected thread_id r

-- Two rows that would both be active after the retry, under one key of one unique index.
pub record Duplicate (thread_id : Option String) (rows : List SyncTask) : Type 0 where
  pub one : SyncTask
  pub other : SyncTask
  pub one_in : In one rows
  pub other_in : In other rows
  pub apart : one.id ≢ other.id
  pub one_revived : revived thread_id one ≡ true
  pub other_revived : revived thread_id other ≡ true
  pub types : same_type one.task_type other.task_type ≡ true
  pub keys : same_key (live_index one.task_type) one other ≡ true

abbrev pub retried : ℕ → Option String → SyncTask → SyncTask
retried now thread_id = step now (selected thread_id) (requeued now)

pub conflicts-retried :
    (now : ℕ) (thread_id : Option String) (r s : SyncTask)
    → conflicts (retried now thread_id r) (retried now thread_id s) ≡ (
        revived thread_id r
        && revived thread_id s
        && same_type r.task_type s.task_type
        && same_key (live_index r.task_type) r s)
unfolding conflicts is_thread
conflicts-retried now thread_id r s = ground arith

clash_with :
    (now : ℕ) (thread_id : Option String) (r : SyncTask) (rows : List SyncTask)
    → none_conflicts
        (retried now thread_id r)
        (update_rows now (selected thread_id) (requeued now) rows)
      ≡ false
    → (s : SyncTask) × In s rows
      × (conflicts (retried now thread_id r) (retried now thread_id s) ≡ true)
unfolding none_conflicts update_rows
clash_with now thread_id r [] h = cc
clash_with now thread_id r (s ∷ rows) h =
    elim (Bool-cases (conflicts (retried now thread_id r) (retried now thread_id s))) [
      | inl e ↦ (s, here refl, e)
      | inr e ↦ let (u, m, c) = clash_with now thread_id r rows (ground arith) in (u, there m, c)
    ]

there_both :
    (thread_id : Option String) (r : SyncTask) (rows : List SyncTask)
    → Duplicate thread_id rows
    → Duplicate thread_id (r ∷ rows)
there_both thread_id r rows d = record {
  one = d.one;
  other = d.other;
  one_in = there d.one_in;
  other_in = there d.other_in;
  apart = d.apart;
  one_revived = d.one_revived;
  other_revived = d.other_revived;
  types = d.types;
  keys = d.keys;
}

Duplicate-cons :
    (now : ℕ) (thread_id : Option String) (r s : SyncTask) (rows : List SyncTask)
    → In s rows
    → s.id ≢ r.id
    → conflicts (retried now thread_id r) (retried now thread_id s) ≡ true
    → Duplicate thread_id (r ∷ rows)
Duplicate-cons now thread_id r s rows m ne c = record {
  one = r;
  other = s;
  one_in = here refl;
  other_in = there m;
  apart = λ e. ne (sym e);
  one_revived = ground (arith, conflicts-retried now thread_id r s);
  other_revived = ground (arith, conflicts-retried now thread_id r s);
  types = ground (arith, conflicts-retried now thread_id r s);
  keys = ground (arith, conflicts-retried now thread_id r s);
}

pub Duplicate-found :
    (now : ℕ) (thread_id : Option String) (rows : List SyncTask)
    → DistinctIds rows
    → unique_active (update_rows now (selected thread_id) (requeued now) rows) ≡ false
    → Duplicate thread_id rows
unfolding unique_active update_rows
Duplicate-found now thread_id [] d h = absurd (ground arith)
Duplicate-found now thread_id (r ∷ rows) d h =
    elim (Bool-cases (
      none_conflicts (retried now thread_id r)
        (update_rows now (selected thread_id) (requeued now) rows))) [
          | inl clear ↦
              there_both thread_id r rows (Duplicate-found now thread_id rows d.1 (rw clear at h))
          | inr clash ↦
              let (s, m, c) = clash_with now thread_id r rows clash in
              Duplicate-cons now thread_id r s rows m (All-In (λ (s : SyncTask). s.id ≢ r.id) m d.0)
                c
        ]

same_text_sym : (a b : Option String) → same_text a b ≡ true → same_text b a ≡ true
same_text_sym (some a) (some b) h = ground (arith, str_eq_iff a b, str_eq_iff b a)
same_text_sym (some a) none h = cc
same_text_sym none b h = cc

same_key_sym :
    (k : Option KeyColumns) (r s : SyncTask) → same_key k r s ≡ true → same_key k s r ≡ true
same_key_sym none r s h = h
same_key_sym (some KeyColumns.user_and_thread) r s h = ground (
  arith,
  str_eq_iff r.user_email s.user_email,
  str_eq_iff s.user_email r.user_email,
  str_eq_iff r.gmail_thread_id s.gmail_thread_id,
  str_eq_iff s.gmail_thread_id r.gmail_thread_id,
)
same_key_sym (some KeyColumns.thread_column) r s h = ground (
  arith,
  str_eq_iff r.gmail_thread_id s.gmail_thread_id,
  str_eq_iff s.gmail_thread_id r.gmail_thread_id,
)
same_key_sym (some KeyColumns.project_column) r s h =
    same_text_sym r.project_page_id s.project_page_id h

conflicts_sym : (r s : SyncTask) → conflicts r s ≡ true → conflicts s r ≡ true
unfolding conflicts
conflicts_sym r s h =
    let (a, b, c, d) =
      and_parts (is_active r.status) (is_active s.status) (same_type r.task_type s.task_type)
        (same_key (live_index r.task_type) r s) h in
    let e : r.task_type ≡ s.task_type = (same_type_iff r.task_type s.task_type).0 c in
    rw (
      a,
      b,
      (same_type_iff s.task_type r.task_type).1 (sym e),
      same_key_sym (live_index s.task_type) r s
          (subst (λ (ty : TaskType). same_key (live_index ty) r s ≡ true) e d),
    )

clear_of :
    (now : ℕ) (thread_id : Option String) (r : SyncTask) {s : SyncTask} {rows : List SyncTask}
    → In s rows
    → none_conflicts r (update_rows now (selected thread_id) (requeued now) rows) ≡ true
    → conflicts r (retried now thread_id s) ≡ false
unfolding none_conflicts update_rows
clear_of now thread_id r {s} (here {x} e) h = rw (← e) (ground arith)
clear_of now thread_id r (there {x} {xs} m) h = clear_of now thread_id r m (ground arith)

pub no_clash :
    (now : ℕ) (thread_id : Option String) {r s : SyncTask} {rows : List SyncTask}
    → In r rows
    → In s rows
    → r.id ≢ s.id
    → conflicts (retried now thread_id r) (retried now thread_id s) ≡ true
    → unique_active (update_rows now (selected thread_id) (requeued now) rows) ≡ true
    → ⊥
unfolding unique_active update_rows
no_clash now thread_id {r} {s} (here e) (here e') ne c u =
    ne (ap (λ (t : SyncTask). t.id) (sym e ∙ e'))
no_clash now thread_id {r} {s} (here {x} {xs} e) (there m) ne c u =
    let n =
      subst
        (λ (y : SyncTask). conflicts (retried now thread_id y) (retried now thread_id s) ≡ false) e
        (clear_of now thread_id (retried now thread_id x) m (ground arith)) in
    cc (c, n)
no_clash now thread_id {r} {s} (there m) (here {x} {xs} e) ne c u =
    let n =
      subst
        (λ (y : SyncTask). conflicts (retried now thread_id y) (retried now thread_id r) ≡ false) e
        (clear_of now thread_id (retried now thread_id x) m (ground arith)) in
    cc (n, conflicts_sym (retried now thread_id r) (retried now thread_id s) c)
no_clash now thread_id {r} {s} (there {x} {xs} m) (there m') ne c u =
    no_clash now thread_id m m' ne c (ground arith)
