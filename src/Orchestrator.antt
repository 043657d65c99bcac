-- ===== src/Orchestrator.antt =====
-- mantlekeep-control/orchestrator: the engine that runs a governed DAG under a token.
pub mod Graph
pub mod Counting
pub mod Indexing
pub mod Rounds
pub mod Layering
pub mod Order
pub mod Events
pub mod Run
