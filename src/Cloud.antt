-- ===== src/Cloud.antt =====
-- The cloud store and its helpers: frontend/src/stores/cloud/ and the cloud views.
pub mod Address
pub mod History
pub mod Ids
pub mod SmartRouting
pub mod InstanceSync
pub mod LoadBalance
pub mod Nodes
pub mod ManualImport
pub mod Subscription
