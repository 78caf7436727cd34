-- ===== src/Privacy.antt =====
-- shared/procuresignal/privacy and jobs/retention.py: what is held about a person, and for how long.
-- A row gives the cell of each column, and a database the rows of each table.
pub mod Inventory
pub mod Database
pub mod Subject
pub mod Erased
pub mod Exported
pub mod Retention
mod Tests
