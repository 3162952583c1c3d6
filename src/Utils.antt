-- ===== src/Utils.antt =====
-- Utilities of the frontend: frontend/src/utils/.
pub mod ErrorRecovery
pub mod Debounce
