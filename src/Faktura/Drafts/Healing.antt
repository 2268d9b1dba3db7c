-- ===== src/Faktura/Drafts/Healing.antt =====
-- The check of the drafts heals the audit rows once, and what a reset leaves.
use gb_automations.Base.{
  String, Bool, true, false, Option, some, none, List, [], ◌∷◌, ◌≡◌, refl, arith, ◌&&◌, not, All,
  In, here, there, In-cons, sym, same_text, All-each, Bool-cases, ◌⊎◌, inl, inr, truthy, str_eq,
  str_eq_iff, if◌then◌else◌,
}
use gb_automations.Faktura.Billing.{InvoiceType}
use gb_automations.Faktura.Drafts.{
  FikenInvoice, Existence, Deletion, is_gone, is_away, is_candidate, of_type, candidates, verified,
  live_unsent_invoice_ids, reset_project_drafts,
}
use gb_automations.Faktura.Drafts.Laws.{others, without, candidates-mark_each}

module _ (test : String → Bool) where
  -- The loop does not mark the id.
  abbrev Spared : String → Type 0
  Spared y = (truthy y && test y) ≡ false

  spare_step :
      (x y : String) (xs : List String)
      → str_eq y x ≡ false
      → Spared y ⊎ In y (x ∷ xs)
      → Spared y ⊎ In y xs
  spare_step x y xs h (inl s) = inl s
  spare_step x y xs h (inr (here e)) = ground (arith, str_eq_iff y x, sym e)
  spare_step x y xs h (inr (there m)) = inr m

  spare_others :
      (x : String) (xs ids : List String)
      → All (λ y. Spared y ⊎ In y (x ∷ xs)) ids
      → All (λ y. Spared y ⊎ In y xs) (others x ids)
  spare_others x xs [] h = tt
  spare_others x xs (y ∷ ids) h = elim (Bool-cases (str_eq y x)) [
    | inl e ↦ rw e (spare_others x xs ids h.1)
    | inr e ↦ rw e (spare_step x y xs e h.0, spare_others x xs ids h.1)
  ]

  spare_kept :
      (x : String) (xs ids : List String)
      → Spared x
      → All (λ y. Spared y ⊎ In y (x ∷ xs)) ids
      → All (λ y. Spared y ⊎ In y xs) ids
  spare_kept x xs [] s h = tt
  spare_kept x xs (y ∷ ids) s h = (go h.0, spare_kept x xs ids s h.1)
    where
      go : Spared y ⊎ In y (x ∷ xs) → Spared y ⊎ In y xs
      go (inl p) = inl p
      go (inr (here e)) = inl (rw⁻¹ e s)
      go (inr (there m)) = inr m

  only_left : (y : String) → Spared y ⊎ In y [] → Spared y
  only_left y (inl s) = s
  only_left y (inr m) = elim m [ ]

  -- What the loop over the ids leaves of a list whose members are among them is spared.
  without-Spared :
      (xs ids : List String) → All (λ y. Spared y ⊎ In y xs) ids → All Spared (without test xs ids)
  without-Spared [] [] h = tt
  without-Spared [] (y ∷ ids) h = (only_left y h.0, without-Spared [] ids h.1)
  without-Spared (x ∷ xs) ids h = elim (Bool-cases (truthy x && test x)) [
    | inl e ↦ rw e (without-Spared xs (others x ids) (spare_others x xs ids h))
    | inr e ↦ rw e (without-Spared xs ids (spare_kept x xs ids e h))
  ]

module _ (check : String → Existence) where
  abbrev gone : String → Bool
  gone id = is_gone (check id)

-- Each draft of a type is among the drafts of all types.
drop_last : (a b : Bool) → (a && b) ≡ true → (a && true) ≡ true
drop_last true b h = refl
drop_last false b h = h

is_candidate-any :
    (company project : String) (t : Option InvoiceType) (row : FikenInvoice)
    → is_candidate company project t row ≡ true
    → is_candidate company project none row ≡ true
unfolding is_candidate
is_candidate-any company project t row h =
    drop_last
      (str_eq row.company_slug company
        && same_text row.project_page_id (some project)
        && not row.sent)
      (of_type t row) h

In-kept :
    {A : Type 0} {a : A} (b : Bool) (x : A) {xs : List A}
    → In a xs
    → In a (if b then x ∷ xs else xs)
In-kept true x m = there m
In-kept false x m = m

candidates-any :
    (company project : String) (t : Option InvoiceType) (rows : List FikenInvoice) (id : String)
    → In id (candidates company project t rows)
    → In id (candidates company project none rows)
unfolding candidates
candidates-any company project t [] id m = m
candidates-any company project t (row ∷ rows) id m =
    elim (Bool-cases (is_candidate company project t row)) [
      | inl e ↦ rw (is_candidate-any company project t row e) (
          In-cons (λ y. In y (row.fiken_invoice_id ∷ candidates company project none rows))
            row.fiken_invoice_id (candidates company project t rows) (here refl)
            (λ y n. there (candidates-any company project t rows y n)) id (rw e at m))
      | inr e ↦
          In-kept (is_candidate company project none row) row.fiken_invoice_id
            (candidates-any company project t rows id (rw e at m))
    ]

verified_All_step :
    (test : String → Bool) (b c : Bool) (id : String) (rest : List String)
    → (b && test id) ≡ false
    → All (λ y. test y ≡ false) rest
    → All (λ y. test y ≡ false) (if b && c then id ∷ rest else rest)
verified_All_step test true true id rest s h = (s, h)
verified_All_step test true false id rest s h = h
verified_All_step test false c id rest s h = h

verified-All :
    (check : String → Existence) (test : String → Bool) (ids : List String)
    → All (Spared test) ids
    → All (λ id. test id ≡ false) (verified check ids)
unfolding verified
verified-All check test [] h = tt
verified-All check test (id ∷ ids) h =
    verified_All_step test (truthy id) (not (is_gone (check id))) id (verified check ids) h.0
      (verified-All check test ids h.1)

-- After a reset of a project's drafts, a draft that a check still finds is one whose deletion failed.
pub reset-live_unsent :
    (delete : String → Deletion) (check : String → Existence) (company project : String)
    (t : Option InvoiceType) (rows : List FikenInvoice)
    → All
        (λ id. is_away (delete id) ≡ false)
        (live_unsent_invoice_ids check company project t
          (reset_project_drafts delete company project rows)).0
unfolding live_unsent_invoice_ids reset_project_drafts
reset-live_unsent delete check company project t rows =
    let ids = candidates company project none rows in
    let test : String → Bool = λ id. is_away (delete id) in
    rw (candidates-mark_each company project t test ids rows) (
      verified-All check test _ (
        without-Spared test ids (candidates company project t rows) (
          All-each _ (candidates company project t rows)
            (λ y m. inr (candidates-any company project t rows y m)))))
