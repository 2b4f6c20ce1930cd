-- ===== src/OpenApi.antt =====
-- The resource/openapi package: the registered documents and the queries of one operation.
pub mod Registry
pub mod Schema
pub mod Operation
mod Tests
