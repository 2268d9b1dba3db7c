-- ===== src/Faktura.antt =====
-- sync/sync_fiken_invoice.py and sync/graduate_project.py: what an invoice run bills of each row, the
-- drafts that are out, and what a sent invoice writes back. Amounts are exact here, where the program
-- has floats: prices and billed amounts in øre, discounts in hundredths of a percent. A number below
-- zero reads as zero, as the program's own tests and clamps have it.
pub mod Billing
pub mod Drafts
