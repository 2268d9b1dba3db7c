-- ===== src/Queue/Claim/Fifo.antt =====
-- The row that `claim_one` takes.
use mathlib.Core.Path.{subst}
use gb_automations.Base.{
  Bool, true, false, none, some, List, [], ◌∷◌, ◌≡◌, refl, arith, All, In, here, there, All-In,
  All-imp, Bool-cases, inl, inr, Option-cases, ◌≢◌, sym, ap, ◌∙◌,
}
use gb_automations.Schema.{SyncTask}
use gb_automations.Schema.Valid.{DistinctIds}
use gb_automations.Queue.Claim.{earlier, oldest}

-- `t` passes the test, and no row that passes it comes earlier.
pub record IsFirst (p : SyncTask → Bool) (rows : List SyncTask) (t : SyncTask) : Type 0 where
  pub passes : p t ≡ true
  pub member : In t rows
  pub first : All (λ (s : SyncTask). p s ≡ true → earlier s t ≡ false) rows

earlier_irrefl : (r : SyncTask) → earlier r r ≡ false
unfolding earlier
earlier_irrefl r = ground arith

earlier_asym : (r t : SyncTask) → earlier t r ≡ true → earlier r t ≡ false
unfolding earlier
earlier_asym r t h = ground arith

not-earlier_trans :
    (r s t : SyncTask) → earlier s t ≡ false → earlier t r ≡ false → earlier s r ≡ false
unfolding earlier
not-earlier_trans r s t h k = ground arith

-- No row passes the test where none is found.
pub oldest-eq-none :
    (p : SyncTask → Bool) (rows : List SyncTask)
    → oldest p rows ≡ none
    → All (λ (s : SyncTask). p s ≡ false) rows
unfolding oldest
oldest-eq-none p [] h = tt
oldest-eq-none p (r ∷ rows) h = (ground arith, oldest-eq-none p rows (ground arith))

All-not-earlier :
    (p : SyncTask → Bool) (r t : SyncTask) (rows : List SyncTask)
    → earlier t r ≡ false
    → All (λ (s : SyncTask). p s ≡ true → earlier s t ≡ false) rows
    → All (λ (s : SyncTask). p s ≡ true → earlier s r ≡ false) rows
All-not-earlier p r t [] e h = tt
All-not-earlier p r t (s ∷ rows) e h =
    (λ q. not-earlier_trans r s t (h.0 q) e, All-not-earlier p r t rows e h.1)

All-vacuous :
    (p : SyncTask → Bool) (r : SyncTask) (rows : List SyncTask)
    → All (λ (s : SyncTask). p s ≡ false) rows
    → All (λ (s : SyncTask). p s ≡ true → earlier s r ≡ false) rows
All-vacuous p r [] h = tt
All-vacuous p r (s ∷ rows) h = ((λ q. cc), All-vacuous p r rows h.1)

IsFirst-cons :
    (p : SyncTask → Bool) (r t : SyncTask) (rows : List SyncTask)
    → (p r ≡ true → earlier r t ≡ false)
    → IsFirst p rows t
    → IsFirst p (r ∷ rows) t
IsFirst-cons p r t rows e h = record {
  passes = h.passes;
  member = there h.member;
  first = (e, h.first);
}

-- The row found passes the test, stands in the table, and no row that passes comes before it.
pub oldest-IsFirst :
    (p : SyncTask → Bool) (rows : List SyncTask) (t : SyncTask)
    → oldest p rows ≡ some t
    → IsFirst p rows t
unfolding oldest
oldest-IsFirst p [] t h = absurd (ground arith)
oldest-IsFirst p (r ∷ rows) t h = elim (Bool-cases (p r)) [
  | inr no_pass ↦ IsFirst-cons p r t rows (λ q. cc) (oldest-IsFirst p rows t (rw no_pass at h))
  | inl pass ↦ elim (Option-cases (oldest p rows)) [
    | inl alone ↦
        let e : r ≡ t = ground arith in
        subst (IsFirst p (r ∷ rows)) e (record {
          passes = pass;
          member = here refl;
          first = (λ _. earlier_irrefl r, All-vacuous p r rows (oldest-eq-none p rows alone));
        })
    | inr (u, found) ↦
        let ih = oldest-IsFirst p rows u found in
        elim (Bool-cases (earlier u r)) [
          | inl before ↦
              let e : u ≡ t = ground arith in
              subst (IsFirst p (r ∷ rows)) e
                (IsFirst-cons p r u rows (λ _. earlier_asym r u before) ih)
          | inr after ↦
              let e : r ≡ t = ground arith in
              subst (IsFirst p (r ∷ rows)) e (record {
                passes = pass;
                member = here refl;
                first = (λ _. earlier_irrefl r, All-not-earlier p r u rows after ih.first);
              })
        ]
  ]
]

-- In a table with distinct keys the key picks out the row.
pub DistinctIds-In :
    {t : SyncTask} {rows : List SyncTask}
    → In t rows
    → DistinctIds rows
    → All (λ (s : SyncTask). s.id ≡ t.id → s ≡ t) rows
DistinctIds-In {t} (here {x} {xs} e) d = (
  λ _. e,
  All-imp (λ (s : SyncTask). s.id ≢ x.id) (λ (s : SyncTask). s.id ≡ t.id → s ≡ t)
      (λ s ne eq. absurd (ne (eq ∙ sym (ap (λ (r : SyncTask). r.id) e)))) xs d.0,
)
DistinctIds-In {t} (there {x} {xs} m) d =
    (λ eq. absurd (All-In (λ (s : SyncTask). s.id ≢ x.id) m d.0 (sym eq)), DistinctIds-In m d.1)
