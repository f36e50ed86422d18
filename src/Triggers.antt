-- ===== src/Triggers.antt =====
-- How the world starts work: runtime/triggers.py over the tables of runtime/db_triggers.py.
pub mod Queue
pub mod Schedules
pub mod Flight
pub mod Start
