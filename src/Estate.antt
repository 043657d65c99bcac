-- ===== src/Estate.antt =====
-- mantlekeep-estate: the footprint of the teams, the approvals it needs, where it runs, and how it
-- is held to what was approved.
pub mod Floor
pub mod Footprint
pub mod Signatures
pub mod Approvals
pub mod Manager
pub mod Ownership
pub mod Drift
pub mod Placement
pub mod Fleet
