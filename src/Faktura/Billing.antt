-- ===== src/Faktura/Billing.antt =====
-- The lines of an invoice: which rows are billed, and how much. The code computes in floating point;
-- the model is exact on prices in øre and discounts in hundredths of a per cent.
pub mod Totals
use gb_automations.Base.{
  ℕ, ◌+◌, ◌-◌, ◌*◌, ◌/◌, ◌%◌, min, String, ◌<>◌, Bool, true, false, Option, none, some, List, [],
  ◌∷◌, ◌&&◌, ◌||◌, not, leb, ltb, ◌==◌, if◌then◌else◌, truthy, strip, or_text, str_eq, same_lower,
}

pub data InvoiceType : Type 0 where
  oppstart slutt : InvoiceType

-- What the run reads of an Oppgave: task_discipline, Pris, Rabatt, Fakturert status and beløp. The
-- code takes a negative number of these as no price, no discount and nothing billed.
pub record Oppgave : Type 0 where
  pub id : String
  pub discipline : Option String
  pub price_ore : Option ℕ
  pub discount_bp : Option ℕ
  pub billed_status : Option String
  pub billed_ore : Option ℕ

-- A nullable number `or 0.0`
abbrev pub or_zero : Option ℕ → ℕ
or_zero none = 0
or_zero (some n) = n

-- Python's `round` of x / unit: to the nearest, and a tie to the even one.
unfoldable pub round_half_even : ℕ → ℕ → ℕ
round_half_even x unit =
    let q = x / unit in
    let r = x % unit in
    if ltb (2 * r) unit
    then q
    else if ltb unit (2 * r)
    then q + 1
    else if q % 2 == 0
    then q
    else q + 1

-- raw_type.lower() == KORREKSJON_KIND_KORREKSJONSRUNDE.lower()
unfoldable pub is_korreksjonsrunde : Oppgave → Bool
is_korreksjonsrunde row = same_lower (strip (or_text row.discipline "")) "korreksjonsrunde"

-- read_select_name(…) or FAKTURERT_STATUS_IKKE
abbrev pub status_of : Oppgave → String
status_of row = or_text row.billed_status "Ikke fakturert"

-- The statuses at which a run of the type skips the row.
unfoldable pub is_billed : InvoiceType → String → Bool
is_billed oppstart status =
    str_eq status "Fakturert" || str_eq status "Utgår" || str_eq status "Oppstart fakturert"
is_billed slutt status = str_eq status "Fakturert" || str_eq status "Utgår"

abbrev pub contains : String → List String → Bool
contains s [] = false
contains s (t ∷ ts) = if str_eq s t then true else contains s ts

unfoldable pub is_eligible : InvoiceType → List String → Oppgave → Bool
unfolding is_korreksjonsrunde is_billed
is_eligible invoice_type on_draft row =
    not (is_korreksjonsrunde row)
    && ltb 0 (or_zero row.price_ore)
    && not (is_billed invoice_type (status_of row))
    && not (truthy row.id && contains row.id on_draft)

unfoldable pub eligible_rows : InvoiceType → List String → List Oppgave → List Oppgave
unfolding is_eligible
eligible_rows invoice_type on_draft [] = []
eligible_rows invoice_type on_draft (row ∷ rows) =
    let rest = eligible_rows invoice_type on_draft rows in
    if is_eligible invoice_type on_draft row then row ∷ rest else rest

-- The millionths of a krone in an øre, and in a krone.
abbrev pub ore : ℕ
ore = 10_000

abbrev pub krone : ℕ
krone = 1_000_000

-- Pris × (1 − Rabatt), in millionths of a krone, with Rabatt clamped to one
unfoldable pub gross : Oppgave → ℕ
gross row = or_zero row.price_ore * (10_000 - min (or_zero row.discount_bp) 10_000)

-- Fakturert beløp and the unsent drafts, in millionths of a krone
unfoldable pub already : Oppgave → ℕ → ℕ
already row drafted_ore = (or_zero row.billed_ore + drafted_ore) * ore

-- `to_bill` is in kroner, `new_total` in millionths of a krone, and the quantity is a fraction.
pub record Amounts : Type 0 where
  pub to_bill : ℕ
  pub new_total : ℕ
  pub unit_price_ore : ℕ
  pub quantity_num : ℕ
  pub quantity_den : ℕ
  pub discount_bp : ℕ

-- The amounts of a row with the share num / den, and what is billed of it before rounding.
abbrev pub amounts : Oppgave → ℕ → ℕ → ℕ → ℕ → Amounts
amounts row drafted_ore to_bill num den = record {
  to_bill = to_bill;
  new_total = already row drafted_ore + to_bill * krone;
  unit_price_ore = or_zero row.price_ore;
  quantity_num = num;
  quantity_den = den;
  discount_bp = min (or_zero row.discount_bp) 10_000;
}

-- remaining = gross − already, and what it leads to
unfoldable pub slutt_amounts : Oppgave → ℕ → Option Amounts
unfolding gross already round_half_even
slutt_amounts row drafted_ore =
    let g = gross row in
    let a = already row drafted_ore in
    if g == 0
    then some (amounts row drafted_ore 0 0 1)
    else if leb g a
    then none
    else some (amounts row drafted_ore (round_half_even (g - a) krone) (g - a) g)

unfoldable pub row_billable_nok : InvoiceType → Oppgave → ℕ → Option Amounts
unfolding slutt_amounts
row_billable_nok oppstart row drafted_ore =
    if or_zero row.price_ore == 0
    then none
    else some (amounts row drafted_ore (round_half_even (gross row) (2 * krone)) 1 2)
row_billable_nok slutt row drafted_ore =
    if or_zero row.price_ore == 0 then none else slutt_amounts row drafted_ore

-- The fields of an InvoiceLine that bear amounts.
pub record InvoiceLine : Type 0 where
  pub oppgave_page_id : String
  pub unit_price_ore : ℕ
  -- round(quantity_fraction, 6), in millionths
  pub quantity_millionths : ℕ
  pub discount_bp : ℕ
  pub amount_ore : ℕ
  -- in millionths of a krone
  pub new_billed : ℕ

unfoldable pub line_of : String → Option Amounts → Option InvoiceLine
line_of id none = none
line_of id (some a) = some (record {
  oppgave_page_id = id;
  unit_price_ore = a.unit_price_ore;
  quantity_millionths = round_half_even (a.quantity_num * 1_000_000) a.quantity_den;
  discount_bp = a.discount_bp;
  amount_ore = a.to_bill * 100;
  new_billed = a.new_total;
})

abbrev pub cons_some {ℓ} : {A : Type ℓ} → Option A → List A → List A
cons_some none xs = xs
cons_some (some x) xs = x ∷ xs

-- `drafted` is the map of the unsent drafts, 0 where a row has no entry.
unfoldable pub build_line_items : InvoiceType → (String → ℕ) → List Oppgave → List InvoiceLine
unfolding row_billable_nok line_of
build_line_items invoice_type drafted [] = []
build_line_items invoice_type drafted (row ∷ rows) =
    cons_some (line_of row.id (row_billable_nok invoice_type row (drafted row.id)))
      (build_line_items invoice_type drafted rows)

-- The status that a sent invoice of the type writes.
abbrev pub history : InvoiceType → String
history oppstart = "Oppstart fakturert"
history slutt = "Fakturert"

-- set_oppgave_billed of graduate_project's _graduate_statuses, for a line of the sent invoice
unfoldable pub graduate_line : InvoiceType → ℕ → Oppgave → Oppgave
graduate_line invoice_type amount_ore row = record row {
  billed_status = some (history invoice_type);
  billed_ore = some (or_zero row.billed_ore + amount_ore);
}
