-- ===== src/Store.antt =====
-- The tables that a run's life is kept in (infrastructure/db/models_runs.py), the transactions on
-- them, and the reads and writes of infrastructure/db/repositories/runs.py. A row has the columns
-- that the modelled code reads or writes; an instant is a number.
pub mod Rows
pub mod Actions
pub mod Queries
pub mod Listing
mod Newest
pub mod Pages
mod Examples
pub mod Keyed
pub mod Orphans
