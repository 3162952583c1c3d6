-- ===== src/Cloud/Subscription.antt =====
-- The subscription that is kept for each cloud node, and the protocols' health:
-- frontend/src/stores/cloud/subscriptionApply.ts.
pub mod Payload
pub mod Tags
pub mod Outbounds
pub mod Servers
pub mod Keys
pub mod Record
pub mod Exclude
pub mod Profiles
pub mod Pruning
pub mod Replacing
pub mod Offering
pub mod Defaults
pub mod ApplyNode
pub mod ApplyAll
pub mod Kept
pub mod Stored
pub mod Bases
pub mod Untouched
pub mod Applied
pub mod Repair
pub mod AppliedEach
pub mod AppliedAll
pub mod Health
pub mod Stable
pub mod Repeated
pub mod Calls
pub mod Edits
pub mod Edited
pub mod Refers
pub mod Apply
pub mod Waiting
pub mod Ensured
pub mod Found
pub mod Unwritten
pub mod Usable
pub mod Move
pub mod Frame
pub mod Moved
pub mod Probe
pub mod Quiet
pub mod Settled
mod Tests
mod HandlerTests
