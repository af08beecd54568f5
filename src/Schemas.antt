-- ===== src/Schemas.antt =====
-- llm_platform/schemas: the records that the parts of the platform exchange.
pub mod Enums
pub mod Records
pub mod Gateway
