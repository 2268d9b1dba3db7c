-- ===== src/Schema.antt =====
-- models.py: the `sync_tasks` table, its rows, its partial unique indexes, and SQL's reading of
-- them. A time is a number of seconds. The table is the list of its rows in insertion order.
mod Rows
mod Statements
pub mod Unique
pub mod Valid
unfoldable pub use Rows.*
unfoldable pub use Statements.*
