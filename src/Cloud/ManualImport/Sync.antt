-- ===== src/Cloud/ManualImport/Sync.antt =====
-- The manual nodes among the instances.
