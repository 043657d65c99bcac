-- ===== src/Examples.antt =====
-- Concrete deployments: each theorem with conditions is applied to one of them.
pub mod Data
pub mod Engine
pub mod Layers
pub mod Documents
pub mod Evidence
pub mod Artifacts
pub mod Changes
pub mod Flow
pub mod Estate
pub mod Fleets
