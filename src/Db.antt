-- ===== src/Db.antt =====
-- internal/db: the store that the consumer and the API use.
pub mod Hourly
pub mod Store
pub mod Calls
pub mod Partition
pub mod Period
pub mod Reports
pub mod Postgres
