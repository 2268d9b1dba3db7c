-- ===== src/Faktura/Drafts.antt =====
-- The drafts that are out: the audit rows that are not marked sent, checked against Fiken. What Fiken
-- answers is a parameter.
pub mod Laws
pub mod Healing
use gb_automations.Base.{
  ℕ, String, Bool, true, false, Option, none, some, List, [], ◌∷◌, ◌++◌, ◌&&◌, ◌||◌, not,
  if◌then◌else◌, truthy, str_eq, same_text, any_of,
}
use gb_automations.Faktura.Billing.{InvoiceType, oppstart, slutt}

-- A row of fiken_invoices; `sent` tells that sent_at is set.
pub record FikenInvoice : Type 0 where
  pub company_slug : String
  pub fiken_invoice_id : String
  pub project_page_id : Option String
  pub invoice_type : Option InvoiceType
  pub sent : Bool

-- check_draft_exists: "exists", "gone", "unknown"
pub data Existence : Type 0 where
  there gone unsure : Existence

abbrev pub is_gone : Existence → Bool
is_gone gone = true
is_gone _ = false

-- delete_invoice_draft: "deleted", "gone", "error"
pub data Deletion : Type 0 where
  deleted was_gone error : Deletion

abbrev pub is_away : Deletion → Bool
is_away deleted = true
is_away was_gone = true
is_away error = false

abbrev pub same_invoice_type : Option InvoiceType → InvoiceType → Bool
same_invoice_type none t = false
same_invoice_type (some oppstart) oppstart = true
same_invoice_type (some slutt) slutt = true
same_invoice_type (some _) _ = false

-- invoice_type is None: all types
abbrev pub of_type : Option InvoiceType → FikenInvoice → Bool
of_type none row = true
of_type (some t) row = same_invoice_type row.invoice_type t

unfoldable pub is_candidate : String → String → Option InvoiceType → FikenInvoice → Bool
is_candidate company project t row =
    str_eq row.company_slug company
    && same_text row.project_page_id (some project)
    && not row.sent
    && of_type t row

-- The ids that the SELECT yields.
unfoldable pub candidates : String → String → Option InvoiceType → List FikenInvoice → List String
candidates company project t [] = []
candidates company project t (row ∷ rows) =
    let rest = candidates company project t rows in
    if is_candidate company project t row then row.fiken_invoice_id ∷ rest else rest

unfoldable pub has_key : String → String → FikenInvoice → Bool
has_key company id row = str_eq row.company_slug company && str_eq row.fiken_invoice_id id

unfoldable pub stamp : String → String → List FikenInvoice → List FikenInvoice
stamp company id [] = []
stamp company id (row ∷ rows) =
    (if has_key company id row then record row { sent = true } else row) ∷ stamp company id rows

-- The upsert: sent_at is set on the row with the key, or on a new row.
unfoldable pub mark_audit_row_stale : String → String → List FikenInvoice → List FikenInvoice
unfolding stamp
mark_audit_row_stale company id rows =
    if any_of (has_key company id) rows
    then stamp company id rows
    else rows
      ++ record {
        company_slug = company;
        fiken_invoice_id = id;
        project_page_id = none;
        invoice_type = none;
        sent = true;
      }
        ∷ []

-- The loop over ids, with a test that tells which to mark.
unfoldable pub mark_each :
    String → (String → Bool) → List String → List FikenInvoice → List FikenInvoice
unfolding mark_audit_row_stale
mark_each company test [] rows = rows
mark_each company test (id ∷ ids) rows =
    mark_each company test ids
      (if truthy id && test id then mark_audit_row_stale company id rows else rows)

-- live_ids, in the order of the rows
unfoldable pub verified : (String → Existence) → List String → List String
verified check [] = []
verified check (id ∷ ids) =
    let rest = verified check ids in
    if truthy id && not (is_gone (check id)) then id ∷ rest else rest

-- _live_unsent_invoice_ids_for_project: the ids, and the rows afterwards
unfoldable pub live_unsent_invoice_ids :
    (String → Existence)
    → String
    → String
    → Option InvoiceType
    → List FikenInvoice
    → List String × List FikenInvoice
unfolding candidates verified mark_each
live_unsent_invoice_ids check company project t rows =
    let ids = candidates company project t rows in
    (verified check ids, mark_each company (λ id. is_gone (check id)) ids rows)

unfoldable pub has_unsent_draft :
    (String → Existence) → String → String → InvoiceType → List FikenInvoice → Bool
unfolding live_unsent_invoice_ids
has_unsent_draft check company project t rows =
    any_of (λ id. true) (live_unsent_invoice_ids check company project (some t) rows).0

unfoldable pub reset_project_drafts :
    (String → Deletion) → String → String → List FikenInvoice → List FikenInvoice
unfolding candidates mark_each
reset_project_drafts delete company project rows =
    mark_each company (λ id. is_away (delete id)) (candidates company project none rows) rows
