-- ===== src/Leveranse/Laws.antt =====
-- What a recheck may write.
use mathlib.Core.Path.{subst}
use gb_automations.Base.{
  ℕ, String, Bool, true, false, Option, none, some, List, [], ◌∷◌, ◌≡◌, refl, arith, In, here,
  there, Bool-cases, inl, inr, str_eq, str_eq_iff, sym, ◌==◌, if◌then◌else◌, same_text,
}
use gb_automations.Worker.Engines.{Attempt, returned, raised, Exception}
use gb_automations.Leveranse.{
  Board, Statuses, Action, is_manual, write, guarded_write, after_read, write_listed,
  set_oppgave_status, find_active_korreksjonsrunde, list_korreksjonsrunder, round_status,
  write_round, write_rounds, write_round_statuses, settle, deliverable_status, by_counts, by_round,
  by_status, recheck_leveranse_status,
}
use gb_automations.Leveranse.Grounds.{
  round_status-ForRound, deliverable_status-ForDeliverable, Grounds, Change, Changes,
}

module _ (board : Board) (page : String) (st : Statuses) where
  not_by_hand :
      (q : String) (now : Option String)
      → Change board page st q now
      → is_manual now ≡ false
      → is_manual (st q) ≡ false
  not_by_hand q now (Change.kept e) h = rw (← e) h
  not_by_hand q now (Change.changed name g m e) h = m

  write-Changes :
      (p name : String) (st' : Statuses)
      → Changes board page st st'
      → is_manual (st' p) ≡ false
      → Grounds board page p name
      → Changes board page st (write p name st')
  write-Changes p name st' c m g q = elim (Bool-cases (str_eq q p)) [
    | inl e ↦
        let same : p ≡ q = sym ((str_eq_iff q p).0 e) in
        Change.changed name (subst (λ (x : String). Grounds board page x name) same g)
          (subst (λ (x : String). is_manual (st x) ≡ false) same (not_by_hand p (st' p) (c p) m))
          (rw e refl)
    | inr e ↦ rw e (c q)
  ]

  guarded-Changes :
      (patch : Option Exception) (p name : String) (st' : Statuses)
      → Changes board page st st'
      → Grounds board page p name
      → Changes board page st (guarded_write patch p name st').1
  unfolding guarded_write
  guarded-Changes none p name st' c g = elim (Bool-cases (is_manual (st' p))) [
    | inl m ↦ rw m c
    | inr m ↦ elim (Bool-cases (same_text (st' p) (some name))) [
      | inl s ↦ rw (m, s) c
      | inr s ↦ rw (m, s) (write-Changes p name st' c m g)
    ]
  ]
  guarded-Changes (some e) p name st' c g = elim (Bool-cases (is_manual (st' p))) [
    | inl m ↦ rw m c
    | inr m ↦ elim (Bool-cases (same_text (st' p) (some name))) [
      | inl s ↦ rw (m, s) c
      | inr s ↦ rw (m, s) c
    ]
  ]

  after_read-Changes :
      (read patch : Option Exception) (p name : String) (st' : Statuses)
      → Changes board page st st'
      → Grounds board page p name
      → Changes board page st (after_read read patch p name st').1
  unfolding after_read
  after_read-Changes none patch p name st' c g = guarded-Changes patch p name st' c g
  after_read-Changes (some e) patch p name st' c g = c

  set-Changes :
      (p name : String) (st' : Statuses)
      → Changes board page st st'
      → Grounds board page p name
      → Changes board page st (set_oppgave_status board p name st').1
  unfolding set_oppgave_status
  set-Changes p name st' c g =
      after_read-Changes (board.read_error p) (board.patch_error p) p name st' c g

  settle-Changes :
      (r : Attempt Action × Statuses)
      → Changes board page st r.1
      → Changes board page st (settle r).1
  unfolding settle
  settle-Changes (returned a, st') c = c
  settle-Changes (raised e, st') c = c

  write_round-Changes :
      (rounds : List (String × ℕ)) (r : String × ℕ)
      → list_korreksjonsrunder board page ≡ returned rounds
      → In r rounds
      → (o : Attempt (ℕ × ℕ)) → board.count_korreksjon_children r.0 ≡ o
      → (st' : Statuses) → Changes board page st st'
      → Changes board page st (write_round board r.0 o st')
  unfolding write_round
  write_round-Changes rounds r l m (raised e) o st' c = c
  write_round-Changes rounds r l m (returned (total, ticked)) o st' c =
      elim (Bool-cases (total == 0)) [
        | inl z ↦ rw z c
        | inr z ↦ rw z (
            set-Changes r.0 (round_status total ticked) st' c (
              Grounds.a_round rounds r total ticked l m o (λ e. ground arith)
                (round_status-ForRound total ticked)))
      ]

  write_rounds-Changes :
      (all rounds : List (String × ℕ))
      → list_korreksjonsrunder board page ≡ returned all
      → ((r : String × ℕ) → In r rounds → In r all)
      → (st' : Statuses) → Changes board page st st'
      → Changes board page st (write_rounds board rounds st')
  unfolding write_rounds
  write_rounds-Changes all [] l sub st' c = c
  write_rounds-Changes all (r ∷ rounds) l sub st' c =
      write_rounds-Changes all rounds l (λ s m. sub s (there m)) _
        (write_round-Changes all r l (sub r (here refl)) _ refl st' c)

  write_listed-Changes :
      (o : Attempt (List (String × ℕ)))
      → list_korreksjonsrunder board page ≡ o
      → Changes board page st (write_listed board o st)
  unfolding write_listed
  write_listed-Changes (returned rounds) l =
      write_rounds-Changes rounds rounds l (λ r m. m) st (λ q. Change.kept refl)
  write_listed-Changes (raised e) l = λ q. Change.kept refl

  by_counts-Changes :
      (r : String × ℕ)
      → find_active_korreksjonsrunde board page ≡ returned (some r)
      → (o : Attempt (ℕ × ℕ)) → board.count_korreksjon_children r.0 ≡ o
      → (st' : Statuses) → Changes board page st st'
      → Changes board page st (by_counts board page o st').1
  unfolding by_counts
  by_counts-Changes r f (raised e) o st' c = c
  by_counts-Changes r f (returned (total, ticked)) o st' c = elim (Bool-cases (total == 0)) [
    | inl z ↦ rw z c
    | inr z ↦ elim (Bool-cases (ticked == 0)) [
      | inl y ↦ rw (z, y) c
      | inr y ↦
          rw (z, y)
            (settle-Changes _ (
              set-Changes page (deliverable_status total ticked) st' c (
                Grounds.corrected r total ticked f o (λ e. ground arith) (λ e. ground arith)
                  (deliverable_status-ForDeliverable total ticked))))
    ]
  ]

  by_round-Changes :
      (o : Attempt (Option (String × ℕ)))
      → find_active_korreksjonsrunde board page ≡ o
      → (st' : Statuses) → Changes board page st st'
      → Changes board page st (by_round board page o st').1
  unfolding by_round
  by_round-Changes (raised e) f st' c = c
  by_round-Changes (returned none) f st' c = promoted (board.has_real_version page) refl
    where
      promoted :
          (b : Bool)
          → board.has_real_version page ≡ b
          → Changes board page st
              (if b
                then settle (set_oppgave_status board page "Ferdig" st')
                else (Action.skipped_no_round, st')).1
      promoted true v =
          settle-Changes _ (set-Changes page "Ferdig" st' c (Grounds.clean_upload f v))
      promoted false v = c
  by_round-Changes (returned (some r)) f st' c = by_counts-Changes r f _ refl st' c

  by_status-Changes :
      (read : Option Exception) (st' : Statuses)
      → Changes board page st st'
      → Changes board page st (by_status board page read st').1
  unfolding by_status
  by_status-Changes (some e) st' c = c
  by_status-Changes none st' c = elim (Bool-cases (is_manual (st' page))) [
    | inl m ↦ rw m c
    | inr m ↦ rw m (by_round-Changes _ refl st' c)
  ]

-- The writes of the rounds.
pub rounds-Changes :
    (board : Board) (page : String) (st : Statuses)
    → Changes board page st (write_round_statuses board page st)
unfolding write_round_statuses
rounds-Changes board page st = write_listed-Changes board page st _ refl

-- A recheck of a deliverable, whatever fails on the way, writes a status only where there are
-- grounds for it, and never on a page whose status was set by hand; every other page keeps its
-- status.
pub recheck_leveranse_status-Changes :
    (board : Board) (page : String) (st : Statuses) (q : String)
    → Change board page st q ((recheck_leveranse_status board page st).1 q)
unfolding recheck_leveranse_status write_round_statuses
recheck_leveranse_status-Changes board page st =
    by_status-Changes board page st _ _ (write_listed-Changes board page st _ refl)
