-- ===== src/Stores.antt =====
-- The stores that keep lists of records in files: frontend/src/stores/subscribes.ts, profiles.ts,
-- rulesets.ts and scheduledtasks.ts.
pub mod Lists
pub mod Tasks
