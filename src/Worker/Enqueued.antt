-- ===== src/Worker/Enqueued.antt =====
-- What the enqueue calls of a run leave on the queue.
use gb_automations.Base.{
  ℕ, true, false, List, [], ◌∷◌, ◌≡◌, refl, All, In, here, there, not, ◌&&◌, Bool-cases, inl, inr,
  any_of-append_left, if◌then◌else◌,
}
use gb_automations.Schema.{SyncTask, Db, clashes}
use gb_automations.Schema.Valid.{inserted}
use gb_automations.Queue.Request.{Request, row, columns, wanted}
use gb_automations.Queue.Owed.{owed, enqueue_lem, owed-enqueue}
use gb_automations.Worker.World.{enqueue_all}

-- The table after one call.
abbrev pub after_enqueue : ℕ → Request → Db → Db
after_enqueue now q db = if wanted q && not (owed q db.rows) then inserted (row now q) db else db

pub enqueue_all-cons :
    (now : ℕ) (q : Request) (qs : List Request) (db : Db)
    → enqueue_all now (q ∷ qs) db ≡ enqueue_all now qs (after_enqueue now q db)
unfolding enqueue_all
enqueue_all-cons now q qs db = elim (Bool-cases (wanted q && not (owed q db.rows))) [
  | inl e ↦ rw (enqueue_lem now q db, e) refl
  | inr e ↦ rw (enqueue_lem now q db, e) refl
]

owed-after_enqueue :
    (now : ℕ) (q r : Request) (db : Db)
    → owed q db.rows ≡ true
    → owed q (after_enqueue now r db).rows ≡ true
owed-after_enqueue now q r db h = elim (Bool-cases (wanted r && not (owed r db.rows))) [
  | inl e ↦ rw e (any_of-append_left (clashes (columns q) (row 0 q)) db.rows _ h)
  | inr e ↦ rw e h
]

-- What is owed stays owed.
pub enqueue_all-keeps :
    (now : ℕ) (q : Request) (qs : List Request) (db : Db)
    → owed q db.rows ≡ true
    → owed q (enqueue_all now qs db).rows ≡ true
enqueue_all-keeps now q [] db h = unfold enqueue_all in h
enqueue_all-keeps now q (r ∷ qs) db h =
    rw (enqueue_all-cons now r qs db)
      (enqueue_all-keeps now q qs (after_enqueue now r db) (owed-after_enqueue now q r db h))

owed_after :
    (now : ℕ) (q : Request) (db : Db)
    → wanted q ≡ true
    → owed q (after_enqueue now q db).rows ≡ true
owed_after now q db w = elim (Bool-cases (owed q db.rows)) [
  | inl e ↦ rw (w, e) e
  | inr e ↦
      rw (w, e)
        (owed-enqueue now q db {n = 1} {db' = inserted (row now q) db} w
          (rw (enqueue_lem now q db, w, e) refl))
]

-- Every call with an id is owed afterwards.
pub enqueue_all-In :
    (now : ℕ) {q : Request} {qs : List Request} (db : Db)
    → In q qs
    → wanted q ≡ true
    → owed q (enqueue_all now qs db).rows ≡ true
enqueue_all-In now {q} db (here {x} {xs} e) w =
    rw (enqueue_all-cons now x xs db, e)
      (enqueue_all-keeps now q xs (after_enqueue now q db) (owed_after now q db w))
enqueue_all-In now {q} db (there {x} {xs} m) w =
    rw (enqueue_all-cons now x xs db) (enqueue_all-In now (after_enqueue now x db) m w)

-- A call that would add nothing.
abbrev pub IdleCall : List SyncTask → Request → Type 0
IdleCall rows q = (wanted q && not (owed q rows)) ≡ false

enqueue_all-idle :
    (now : ℕ) (qs : List Request) (db : Db) → All (IdleCall db.rows) qs → enqueue_all now qs db ≡ db
enqueue_all-idle now [] db h = unfold enqueue_all in refl
enqueue_all-idle now (q ∷ qs) db h =
    rw (enqueue_all-cons now q qs db, h.0) (enqueue_all-idle now qs db h.1)

enqueue_all-IdleCall :
    (now : ℕ) (qs all : List Request) (db : Db)
    → ((q : Request) → In q qs → In q all)
    → All (IdleCall (enqueue_all now all db).rows) qs
enqueue_all-IdleCall now [] all db sub = tt
enqueue_all-IdleCall now (q ∷ qs) all db sub = elim (Bool-cases (wanted q)) [
  | inl w ↦ (
    rw (w, enqueue_all-In now db (sub q (here refl)) w) refl,
    enqueue_all-IdleCall now qs all db (λ r m. sub r (there m)),
  )
  | inr w ↦ (rw w refl, enqueue_all-IdleCall now qs all db (λ r m. sub r (there m)))
]

-- The same calls again, at any later time, change nothing.
pub enqueue_all-enqueue_all :
    (now later : ℕ) (qs : List Request) (db : Db)
    → enqueue_all later qs (enqueue_all now qs db) ≡ enqueue_all now qs db
enqueue_all-enqueue_all now later qs db =
    enqueue_all-idle later qs (enqueue_all now qs db) (enqueue_all-IdleCall now qs qs db (λ q m. m))
