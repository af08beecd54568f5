-- ===== src/Routing.antt =====
-- llm_platform/routing/router.py: CapabilityRouter. The phases of `route` are the children.
pub mod Groups
pub mod Categories
pub mod Decision
mod Tests
