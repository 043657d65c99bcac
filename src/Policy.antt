-- ===== src/Policy.antt =====
-- mantlekeep-control/internal/policy: the role ladder, the layered cascade with its seals, the
-- per-scope resolver, the grant/cascade precedence, the attribute floor, the RBAC evaluator with
-- its published order, and the failsafe wrapper.
pub mod Ladder
pub mod Cascade
pub mod Scope
pub mod Engine
pub mod Floor
pub mod Precedence
pub mod Rbac
pub mod Failsafe
pub mod Validate
pub mod Live
