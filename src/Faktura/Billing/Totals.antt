-- ===== src/Faktura/Billing/Totals.antt =====
-- How much is billed in the end.
use native.Mathlib.Nat.{add_assoc}
use gb_automations.Base.{
  sym, ℕ, ◌+◌, ◌-◌, ◌*◌, ◌≤◌, ◌<◌, ◌≡◌, ◌≢◌, false, none, some, ap, ◌⊎◌, inl, inr, true, [], ◌∷◌,
  Bool-cases, leb, ◌==◌, Bool, not, ◌&&◌, ltb, truthy, List, String, refl, arith, ◌∙◌,
}
use gb_automations.Faktura.Billing.{
  InvoiceType, oppstart, slutt, Oppgave, or_zero, round_half_even, is_eligible, is_billed,
  eligible_rows, is_korreksjonsrunde, status_of, contains, InvoiceLine, line_of, build_line_items,
  krone, ore, gross, already, Amounts, amounts, slutt_amounts, row_billable_nok, graduate_line,
}

-- Two amounts differ by half a krone at most.
abbrev pub Near : ℕ → ℕ → Type 0
Near x y = (2 * x ≤ 2 * y + krone) × (2 * y ≤ 2 * x + krone)

round-Near : (x : ℕ) → Near (round_half_even x krone * krone) x
unfolding round_half_even
round-Near x = ground arith

-- Half of an amount, rounded to kroner.
round_half_bounds :
    (x : ℕ)
    → let n = round_half_even x (2 * krone) in
      (2 * (n * krone) ≤ x + krone) × (x ≤ 2 * (n * krone) + krone)
unfolding round_half_even
round_half_bounds x = ground arith

half-lt : (x : ℕ) → x ≢ 0 → round_half_even x (2 * krone) * krone < x
unfolding round_half_even
half-lt x h = ground arith

priced : (row : Oppgave) → gross row ≢ 0 → or_zero row.price_ore ≢ 0
unfolding gross
priced row g e = g (rw e (omega arith))

-- What is billed of a fresh row once n kroner of it are on an invoice.
already-fresh :
    (row : Oppgave) (n : ℕ) → or_zero row.billed_ore ≡ 0 → already row (n * 100 + 0) ≡ n * krone
unfolding already
already-fresh row n fresh = rw fresh (omega arith)

-- The price after the discount, in millionths of a krone; nothing is left of it at a discount of 100 % or
-- more.
abbrev pub net : Oppgave → ℕ
net row = or_zero row.price_ore * (10_000 - or_zero row.discount_bp)

gross-net : (row : Oppgave) → gross row ≡ net row
unfolding gross
gross-net row = ap (λ x. or_zero row.price_ore * x) (omega arith)

-- A slutt run of a row with a price after the discount either bills nothing, and then what is on sent
-- invoices and on drafts has reached that price, or it bills what brings these, with the new line, to
-- the price to half a krone.
pub slutt-Near :
    (row : Oppgave) (drafted : ℕ)
    → net row ≢ 0
    → ((row_billable_nok slutt row drafted ≡ none)
        × (net row ≤ (or_zero row.billed_ore + drafted) * ore))
      ⊎ ((a : Amounts) × (row_billable_nok slutt row drafted ≡ some a)
          × Near ((or_zero row.billed_ore + drafted) * ore + a.to_bill * krone) (net row))
unfolding row_billable_nok slutt_amounts already
slutt-Near row drafted n =
    let g : gross row ≢ 0 = λ e. n (sym (gross-net row) ∙ e) in
    let p : (or_zero row.price_ore == 0) ≡ false = ground (arith, priced row g) in
    let z : (gross row == 0) ≡ false = ground (arith, g) in
    let due = gross row - already row drafted in
    elim (Bool-cases (leb (gross row) (already row drafted))) [
      | inl h ↦ rw (p, z, h) (inl (refl, ground (arith, h, gross-net row)))
      | inr h ↦
          rw (p, z, h)
            (inr (
              amounts row drafted (round_half_even due krone) due (gross row),
              refl,
              ground (arith, h, gross-net row, round-Near due),
            ))
    ]

-- For what is left to bill it does not matter whether an earlier draft was sent or is still out.
pub graduate-drafted :
    (row : Oppgave) (invoice_type : InvoiceType) (n drafted : ℕ)
    → row_billable_nok slutt (graduate_line invoice_type n row) drafted
      ≡ row_billable_nok slutt row (n + drafted)
unfolding row_billable_nok slutt_amounts gross already graduate_line
graduate-drafted row invoice_type n drafted = rw add_assoc refl

-- What the two runs bill in the end, where they bill the row.
amounts_of_both :
    (row : Oppgave)
    → or_zero row.billed_ore ≡ 0
    → gross row ≢ 0
    → (first second : Amounts) × (row_billable_nok oppstart row 0 ≡ some first)
      × (row_billable_nok slutt (graduate_line oppstart (first.to_bill * 100) row) 0 ≡ some second)
      × Near
          (or_zero
              (graduate_line slutt
                (second.to_bill * 100)
                (graduate_line oppstart (first.to_bill * 100) row)).billed_ore
            * ore)
          (gross row)
unfolding row_billable_nok slutt_amounts graduate_line
amounts_of_both row fresh g =
    let n = round_half_even (gross row) (2 * krone) in
    let rest = gross row - already row (n * 100 + 0) in
    let second = amounts row (n * 100 + 0) (round_half_even rest krone) rest (gross row) in
    (
      amounts row 0 n 1 2,
      second,
      ground (arith, priced row),
      graduate-drafted row oppstart (n * 100) 0
          ∙ ground (arith, priced row, already-fresh row n fresh, half-lt (gross row)),
      ground (arith, already-fresh row n fresh, round-Near rest, half-lt (gross row)),
    )

-- The lines of a run for a row that is on no draft.
abbrev pub lines : InvoiceType → Oppgave → List InvoiceLine
lines invoice_type row =
    build_line_items invoice_type (λ id. 0) (eligible_rows invoice_type [] (row ∷ []))

lines-billable :
    (invoice_type : InvoiceType) (row : Oppgave) (a : Amounts)
    → is_eligible invoice_type [] row ≡ true
    → row_billable_nok invoice_type row 0 ≡ some a
    → (l : InvoiceLine) × (lines invoice_type row ≡ l ∷ []) × (l.amount_ore ≡ a.to_bill * 100)
unfolding eligible_rows build_line_items line_of
lines-billable invoice_type row a e b = rw (e, b) (_, refl, refl)

lines-not_eligible :
    (invoice_type : InvoiceType) (row : Oppgave)
    → is_eligible invoice_type [] row ≡ false
    → lines invoice_type row ≡ []
unfolding eligible_rows build_line_items
lines-not_eligible invoice_type row e = rw e refl

without_third : (a b c d : Bool) → (a && b && c && d) ≡ true → (a && b && true && d) ≡ true
without_third true true true d h = h
without_third true true false d h = ground (arith, h)
without_third true false c d h = ground (arith, h)
without_third false b c d h = ground (arith, h)

-- After an oppstart invoice a row stays eligible for a slutt run.
graduate-eligible :
    (row : Oppgave) (n : ℕ)
    → is_eligible oppstart [] row ≡ true
    → is_eligible slutt [] (graduate_line oppstart n row) ≡ true
unfolding is_eligible is_billed graduate_line
graduate-eligible row n =
    without_third (not (is_korreksjonsrunde row)) (ltb 0 (or_zero row.price_ore))
      (not (is_billed oppstart (status_of row))) (not (truthy row.id && contains row.id []))

-- A row on a sent invoice is not eligible for another run of that type, and after a slutt invoice
-- for no run at all.
pub graduate-not_eligible :
    (row : Oppgave) (invoice_type : InvoiceType) (n : ℕ) (on_draft : List String)
    → (is_eligible invoice_type on_draft (graduate_line invoice_type n row) ≡ false)
      × (is_eligible oppstart on_draft (graduate_line slutt n row) ≡ false)
unfolding is_eligible graduate_line
graduate-not_eligible row oppstart n on_draft = (ground arith, ground arith)
graduate-not_eligible row slutt n on_draft = (ground arith, ground arith)

-- A row that is eligible for an oppstart run, of which nothing was billed and whose price after the
-- discount is not zero: an oppstart run has one line for it; once that invoice is sent, a slutt run has
-- one line for it too; when that one is sent, the row's billed amount is its price after the discount
-- to half a krone, and no run has a line for it any more.
pub oppstart_then_slutt :
    (row : Oppgave)
    → is_eligible oppstart [] row ≡ true
    → or_zero row.billed_ore ≡ 0
    → net row ≢ 0
    → (first second : InvoiceLine) × (lines oppstart row ≡ first ∷ [])
      × (lines slutt (graduate_line oppstart first.amount_ore row) ≡ second ∷ [])
      × let sent =
          graduate_line slutt second.amount_ore (graduate_line oppstart first.amount_ore row) in
        Near (or_zero sent.billed_ore * ore) (net row)
        × (lines oppstart sent ≡ [])
        × (lines slutt sent ≡ [])
oppstart_then_slutt row e fresh n =
    let (a, b, bills, bills_again, near) =
      amounts_of_both row fresh (λ z. n (sym (gross-net row) ∙ z)) in
    let (first, one, f) = lines-billable oppstart row a e bills in
    let row' = graduate_line oppstart (a.to_bill * 100) row in
    let (second, two, s) =
      lines-billable slutt row' b (graduate-eligible row (a.to_bill * 100) e) bills_again in
    (
      first,
      second,
      one,
      rw f two,
      (
        rw (f, s, sym (gross-net row)) near,
        lines-not_eligible oppstart _ (graduate-not_eligible _ slutt _ []).1,
        lines-not_eligible slutt _ (graduate-not_eligible _ slutt _ []).0,
      ),
    )
