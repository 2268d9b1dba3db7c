-- ===== src/Queue/Threads.antt =====
-- What `enqueue_threads` leaves on the queue.
use text.Mathlib.TextPositions.{eq_refl}
use gb_automations.Base.{
  ℕ, ◌+◌, String, Bool, true, none, List, [], ◌∷◌, ◌≡◌, refl, arith, ok, In, here, there, All,
  All-In, any_of, any_of-append_left, any_of-append_last, length-append, before, ◌∙◌, length,
  Bool-cases, inl, inr, truthy, set_add, sorted_set, str_eq, str_eq_iff, ◌&&◌, keep_if,
}
use gb_automations.Schema.{
  SyncTask, Db, thread, user_and_thread, clashes, is_active, live_index, same_type, same_type_iff,
  insert_or_skip,
}
use gb_automations.Schema.Valid.{IsValid, inserted, inserted-IsValid, insert_or_skip-cases}
use gb_automations.Queue.Enqueue.{new_task, insert_threads, enqueue_threads}

-- The row is an active one of the mailbox's thread.
abbrev pub stands_for : String → String → SyncTask → Bool
stands_for user_email thread_id r =
    is_active r.status
    && same_type r.task_type thread
    && (str_eq r.user_email user_email && str_eq r.gmail_thread_id thread_id)

set_add-In : {s : String} (t : String) (ts : List String) → In s ts → In s (set_add t ts)
unfolding set_add
set_add-In t [] m = elim m [ ]
set_add-In t (x ∷ xs) (here e) = elim (Bool-cases (str_eq t x)) [
  | inl q ↦ rw q (here e)
  | inr q ↦ elim (Bool-cases (before t x)) [
    | inl r ↦ rw (q, r) (there (here e))
    | inr r ↦ rw (q, r) (here e)
  ]
]
set_add-In t (x ∷ xs) (there m) = elim (Bool-cases (str_eq t x)) [
  | inl q ↦ rw q (there m)
  | inr q ↦ elim (Bool-cases (before t x)) [
    | inl r ↦ rw (q, r) (there (there m))
    | inr r ↦ rw (q, r) (there (set_add-In t xs m))
  ]
]

set_add_self : (s : String) (ts : List String) → In s (set_add s ts)
unfolding set_add
set_add_self s [] = here refl
set_add_self s (x ∷ xs) = elim (Bool-cases (str_eq s x)) [
  | inl q ↦ rw q (here (ground (arith, str_eq_iff s x)))
  | inr q ↦ elim (Bool-cases (before s x)) [
    | inl r ↦ rw (q, r) (here refl)
    | inr r ↦ rw (q, r) (there (set_add_self s xs))
  ]
]

pub sorted_set-In :
    {s : String} (ts : List String) → truthy s ≡ true → In s ts → In s (sorted_set ts)
unfolding sorted_set
sorted_set-In [] h m = elim m [ ]
sorted_set-In {s} (x ∷ xs) h (here e) = rw (e, h) (set_add_self s (sorted_set xs))
sorted_set-In {s} (x ∷ xs) h (there m) = elim (Bool-cases (truthy x)) [
  | inl q ↦ rw q (set_add-In x (sorted_set xs) (sorted_set-In xs h m))
  | inr q ↦ rw q (sorted_set-In xs h m)
]

All-of_In :
    (P : String → Type 0) (ts : List String)
    → ((t : String) → In t ts → truthy t ≡ true → P t)
    → All P (keep_if truthy ts)
All-of_In P [] h = tt
All-of_In P (x ∷ xs) h = elim (Bool-cases (truthy x)) [
  | inl q ↦ rw q (h x (here refl) q, All-of_In P xs (λ t m. h t (there m)))
  | inr q ↦ rw q (All-of_In P xs (λ t m. h t (there m)))
]

module _ (now : ℕ) (user_email : String) (rebuild : Bool) where
  abbrev thread_task : String → SyncTask
  thread_task tid = new_task now thread user_email tid none rebuild

  -- What one row of the INSERT leaves.
  record Inserted (tid : String) (db : Db) (n : ℕ) (db' : Db) : Type 0 where
    runs : insert_or_skip user_and_thread (thread_task tid) db ≡ ok (n, db')
    valid : IsValid db'
    counted : length db'.rows ≡ length db.rows + n
    stands : any_of (stands_for user_email tid) db'.rows ≡ true
    keeps :
        (other : String)
        → any_of (stands_for user_email other) db.rows ≡ true
        → any_of (stands_for user_email other) db'.rows ≡ true

  insert_one : (tid : String) (db : Db) → IsValid db → (n : ℕ) × (db' : Db) × Inserted tid db n db'
  unfolding live_index clashes
  insert_one tid db v = elim (Bool-cases (any_of (stands_for user_email tid) db.rows)) [
    | inl old ↦ (
      0,
      db,
      record {
        runs = insert_or_skip-cases user_and_thread (thread_task tid) db refl ∙ rw old refl;
        valid = v;
        counted = omega arith;
        stands = old;
        keeps = λ other h. h;
      },
    )
    | inr new ↦ (
      1,
      inserted (thread_task tid) db,
      record {
        runs = insert_or_skip-cases user_and_thread (thread_task tid) db refl ∙ rw new refl;
        valid = inserted-IsValid user_and_thread (thread_task tid) db refl new v;
        counted = length-append db.rows _;
        stands =
            any_of-append_last (stands_for user_email tid) db.rows _
              (rw ((same_type_iff thread thread).1 refl, eq_refl user_email, eq_refl tid));
        keeps = λ other h. any_of-append_left (stands_for user_email other) db.rows _ h;
      },
    )
  ]

  -- What the INSERT of a list of threads leaves.
  record AllInserted (ids : List String) (db : Db) (n : ℕ) (db' : Db) : Type 0 where
    runs : insert_threads now user_email rebuild ids db ≡ ok (n, db')
    valid : IsValid db'
    counted : length db'.rows ≡ length db.rows + n
    stands : All (λ tid. any_of (stands_for user_email tid) db'.rows ≡ true) ids
    keeps :
        (other : String)
        → any_of (stands_for user_email other) db.rows ≡ true
        → any_of (stands_for user_email other) db'.rows ≡ true

  insert_all :
      (ids : List String) (db : Db) → IsValid db → (n : ℕ) × (db' : Db) × AllInserted ids db n db'
  unfolding insert_threads
  insert_all [] db v = (
    0,
    db,
    record { runs = refl; valid = v; counted = omega arith; stands = tt; keeps = λ other h. h },
  )
  insert_all (tid ∷ ids) db v =
      let (n, db1, one) = insert_one tid db v in
      let (m, db2, rest) = insert_all ids db1 one.valid in
      (
        n + m,
        db2,
        record {
          runs = rw (one.runs, rest.runs) refl;
          valid = rest.valid;
          counted = omega (arith, one.counted, rest.counted);
          stands = (rest.keeps tid one.stands, rest.stands);
          keeps = λ other h. rest.keeps other (one.keeps other h);
        },
      )

  -- On a well-formed table the call never raises. It adds as many rows as it returns, keeps the
  -- table well-formed, and afterwards every thread of the list with an id has an active row.
  pub enqueue_threads_lem :
      (ids : List String) (db : Db)
      → IsValid db
      → (n : ℕ) × (db' : Db) × (enqueue_threads now user_email ids rebuild db ≡ ok (n, db'))
        × IsValid db'
        × (length db'.rows ≡ length db.rows + n)
        × All (λ tid. any_of (stands_for user_email tid) db'.rows ≡ true) (keep_if truthy ids)
  unfolding enqueue_threads
  enqueue_threads_lem ids db v =
      let (n, db', all) = insert_all (sorted_set ids) db v in
      (
        n,
        db',
        all.runs,
        all.valid,
        all.counted,
        All-of_In (λ tid. any_of (stands_for user_email tid) db'.rows ≡ true) ids
            (λ tid m h.
              All-In (λ t. any_of (stands_for user_email t) db'.rows ≡ true) (sorted_set-In ids h m)
                all.stands),
      )
