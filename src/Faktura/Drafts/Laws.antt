-- ===== src/Faktura/Drafts/Laws.antt =====
-- The check of the drafts heals the audit rows once, and a reset clears them.
use gb_automations.Base.{
  String, Bool, true, false, Option, none, some, List, [], ◌∷◌, ◌++◌, ◌≡◌, refl, arith, ◌&&◌, not,
  any_of, keep_if, same_text, Bool-cases, inl, inr, truthy, str_eq, if◌then◌else◌, ap,
}
use gb_automations.Faktura.Billing.{InvoiceType}
use gb_automations.Faktura.Drafts.{
  FikenInvoice, is_candidate, of_type, candidates, has_key, stamp, mark_audit_row_stale, mark_each,
}

abbrev pub others : String → List String → List String
others id ids = keep_if (λ x. not (str_eq x id)) ids

abbrev pub without : (String → Bool) → List String → List String → List String
without test [] ids = ids
without test (x ∷ xs) ids = without test xs (if truthy x && test x then others x ids else ids)

pick :
    (b : Bool) (x id : String) (rest : List String)
    → (if b && not (str_eq x id) then x ∷ others id rest else others id rest)
      ≡ others id (if b then x ∷ rest else rest)
pick true x id rest = refl
pick false x id rest = refl

of_type-sent :
    (t : Option InvoiceType) (row : FikenInvoice)
    → of_type t (record row { sent = true }) ≡ of_type t row
of_type-sent none row = refl
of_type-sent (some t) row = refl

and_first : (a b c d : Bool) → (a && b && c && d) ≡ true → a ≡ true
and_first true b c d h = refl
and_first false b c d h = h

drop_right : (a b c : Bool) → (a && false && c) ≡ (a && b && c && false)
drop_right true true c = and_false c
  where
    and_false : (x : Bool) → false ≡ (x && false)
    and_false true = refl
    and_false false = refl
drop_right true false c = refl
drop_right false b c = refl

and_true : (a b c : Bool) → (a && b && c) ≡ (a && b && c && true)
and_true true true true = refl
and_true true true false = refl
and_true true false c = refl
and_true false b c = refl

module _ (company project : String) (t : Option InvoiceType) where
  stamped : String → FikenInvoice → FikenInvoice
  stamped id row = if has_key company id row then record row { sent = true } else row

  is_candidate-stamped :
      (id : String) (row : FikenInvoice)
      → is_candidate company project t (stamped id row)
        ≡ (is_candidate company project t row && not (str_eq row.fiken_invoice_id id))
  unfolding is_candidate has_key stamped
  is_candidate-stamped id row = elim (Bool-cases (str_eq row.company_slug company)) [
    | inr e ↦ simp e
    | inl e ↦ elim (Bool-cases (str_eq row.fiken_invoice_id id)) [
      | inl f ↦
          simp (e, f, of_type-sent t row)
            (drop_right (same_text row.project_page_id (some project)) (not row.sent)
              (of_type t row))
      | inr f ↦
          simp (e, f)
            (and_true (same_text row.project_page_id (some project)) (not row.sent) (of_type t row))
    ]
  ]

  is_candidate-company :
      (row : FikenInvoice)
      → is_candidate company project t row ≡ true
      → str_eq row.company_slug company ≡ true
  unfolding is_candidate
  is_candidate-company row h =
      and_first (str_eq row.company_slug company) (same_text row.project_page_id (some project))
        (not row.sent) (of_type t row) h

  is_candidate-sent :
      (row : FikenInvoice) → row.sent ≡ true → is_candidate company project t row ≡ false
  unfolding is_candidate
  is_candidate-sent row h = rw h (
      go (str_eq row.company_slug company) (same_text row.project_page_id (some project))
        (of_type t (record row { sent = true })))
    where
      go : (a b c : Bool) → (a && b && false && c) ≡ false
      go true true c = refl
      go true false c = refl
      go false b c = refl

  id-stamped :
      (id : String) (row : FikenInvoice) → (stamped id row).fiken_invoice_id ≡ row.fiken_invoice_id
  unfolding stamped
  id-stamped id row = elim (Bool-cases (has_key company id row)) [
    | inl e ↦ rw e refl
    | inr e ↦ rw e refl
  ]

  candidates-stamp :
      (id : String) (rows : List FikenInvoice)
      → candidates company project t (stamp company id rows)
        ≡ others id (candidates company project t rows)
  unfolding candidates stamp stamped
  candidates-stamp id [] = refl
  candidates-stamp id (row ∷ rows) =
      rw (is_candidate-stamped id row, id-stamped id row, candidates-stamp id rows)
        (pick (is_candidate company project t row) row.fiken_invoice_id id _)

  others-idle :
      (id : String) (rows : List FikenInvoice)
      → any_of (has_key company id) rows ≡ false
      → others id (candidates company project t rows) ≡ candidates company project t rows
  unfolding candidates has_key
  others-idle id [] h = refl
  others-idle id (row ∷ rows) h = elim (Bool-cases (is_candidate company project t row)) [
    | inr e ↦ rw e (others-idle id rows (ground arith))
    | inl e ↦
        let f : str_eq row.fiken_invoice_id id ≡ false =
          ground (arith, is_candidate-company row e) in
        rw (e, f) (ap (λ ids. row.fiken_invoice_id ∷ ids) (others-idle id rows (ground arith)))
  ]

  candidates-append_sent :
      (rows : List FikenInvoice) (row : FikenInvoice)
      → row.sent ≡ true
      → candidates company project t (rows ++ row ∷ []) ≡ candidates company project t rows
  unfolding candidates
  candidates-append_sent [] row h = rw (is_candidate-sent row h) refl
  candidates-append_sent (r ∷ rows) row h = rw (candidates-append_sent rows row h) refl

  -- A row that is marked is no candidate any more, and no other row is touched.
  candidates-mark :
      (id : String) (rows : List FikenInvoice)
      → candidates company project t (mark_audit_row_stale company id rows)
        ≡ others id (candidates company project t rows)
  unfolding mark_audit_row_stale
  candidates-mark id rows = elim (Bool-cases (any_of (has_key company id) rows)) [
    | inl e ↦ rw e (candidates-stamp id rows)
    | inr e ↦ rw (e, others-idle id rows e) (candidates-append_sent rows _ refl)
  ]

module _ (company project : String) (t : Option InvoiceType) where
  candidates-mark_step :
      (b : Bool) (id : String) (rows : List FikenInvoice)
      → candidates company project t (if b then mark_audit_row_stale company id rows else rows) ≡ (
          if b
          then others id (candidates company project t rows)
          else candidates company project t rows)
  candidates-mark_step true id rows = candidates-mark company project t id rows
  candidates-mark_step false id rows = refl

  pub candidates-mark_each :
      (test : String → Bool) (ids : List String) (rows : List FikenInvoice)
      → candidates company project t (mark_each company test ids rows)
        ≡ without test ids (candidates company project t rows)
  unfolding mark_each
  candidates-mark_each test [] rows = refl
  candidates-mark_each test (id ∷ ids) rows =
      rw
        (
          candidates-mark_each test ids
              (if truthy id && test id then mark_audit_row_stale company id rows else rows),
          candidates-mark_step (truthy id && test id) id rows,
        )
        refl
