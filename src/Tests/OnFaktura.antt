-- ===== src/Tests/OnFaktura.antt =====
-- The laws of the invoices on concrete rows.
use gb_automations.Base.{
  ◌*◌, ◌+◌, ◌≤◌, ◌⊎◌, none, some, [], ◌∷◌, ◌≡◌, refl, arith, true, false, String, str_eq,
  if◌then◌else◌, All, same_lower, strip,
}
use gb_automations.Faktura.Billing.{
  oppstart, slutt, Oppgave, Amounts, or_zero, ore, krone, InvoiceLine, row_billable_nok,
  graduate_line, is_eligible,
}
use gb_automations.Faktura.Billing.Totals.{
  Near, net, lines, slutt-Near, graduate-drafted, oppstart_then_slutt, graduate-not_eligible,
}
use gb_automations.Faktura.Drafts.{
  FikenInvoice, Existence, Deletion, is_away, is_candidate, has_key, live_unsent_invoice_ids,
  reset_project_drafts,
}
use gb_automations.Faktura.Drafts.Healing.{reset-live_unsent}

-- 15 000.50 kr with 12.5 per cent off
abbrev row : Oppgave
row = record {
  id = "o1";
  discipline = some "Film";
  price_ore = some 1_500_050;
  discount_bp = some 1250;
  billed_status = none;
  billed_ore = none;
}

-- 13 025 kr are left of the 13 125.44 kr when 100 kr are on a draft.
last_bill : (a : Amounts) × (row_billable_nok slutt row 10_000 ≡ some a) × (a.to_bill ≡ 13_025)
unfolding row_billable_nok
last_bill = (_, refl, refl)

slutt-Near_example :
    ((row_billable_nok slutt row 10_000 ≡ none)
      × (net row ≤ (or_zero row.billed_ore + 10_000) * ore))
    ⊎ ((a : Amounts) × (row_billable_nok slutt row 10_000 ≡ some a)
        × Near ((or_zero row.billed_ore + 10_000) * ore + a.to_bill * krone) (net row))
slutt-Near_example = slutt-Near row 10_000 (λ e. omega (arith, e))

graduate-drafted_run :
    row_billable_nok slutt (graduate_line oppstart 656_200 row) 100
    ≡ row_billable_nok slutt row 656_300
graduate-drafted_run = graduate-drafted row oppstart 656_200 100

row_is_eligible : is_eligible oppstart [] row ≡ true
unfolding is_eligible same_lower strip
row_is_eligible = refl

oppstart_then_slutt_example :
    (first second : InvoiceLine) × (lines oppstart row ≡ first ∷ [])
    × (lines slutt (graduate_line oppstart first.amount_ore row) ≡ second ∷ [])
    × let sent =
        graduate_line slutt second.amount_ore (graduate_line oppstart first.amount_ore row) in
      Near (or_zero sent.billed_ore * ore) (net row)
      × (lines oppstart sent ≡ [])
      × (lines slutt sent ≡ [])
oppstart_then_slutt_example = oppstart_then_slutt row row_is_eligible refl (λ e. omega (arith, e))

graduate-not_eligible_run :
    (is_eligible slutt [] (graduate_line slutt 5 row) ≡ false)
    × (is_eligible oppstart [] (graduate_line slutt 5 row) ≡ false)
graduate-not_eligible_run = graduate-not_eligible row slutt 5 []

abbrev invoice : String → FikenInvoice
invoice id = record {
  company_slug = "firma";
  fiken_invoice_id = id;
  project_page_id = some "p1";
  invoice_type = some oppstart;
  sent = false;
}

abbrev check : String → Existence
check id = if str_eq id "7" then Existence.gone else Existence.there

abbrev delete : String → Deletion
delete id = if str_eq id "7" then Deletion.error else Deletion.deleted

-- One draft is gone: its row is marked, and the other draft is found.
live_unsent_of_two :
    live_unsent_invoice_ids check "firma" "p1" (some oppstart) (invoice "7" ∷ invoice "8" ∷ [])
    ≡ ("8" ∷ [], record (invoice "7") { sent = true } ∷ invoice "8" ∷ [])
unfolding live_unsent_invoice_ids is_candidate has_key
live_unsent_of_two = refl

reset-live_unsent_example :
    All
      (λ id. is_away (delete id) ≡ false)
      (live_unsent_invoice_ids
        (λ id. Existence.unsure)
        "firma"
        "p1"
        (some oppstart)
        (reset_project_drafts delete "firma" "p1" (invoice "7" ∷ invoice "8" ∷ []))).0
reset-live_unsent_example =
    reset-live_unsent delete (λ id. Existence.unsure) "firma" "p1" (some oppstart)
      (invoice "7" ∷ invoice "8" ∷ [])
