-- ===== src/Log.antt =====
-- The log pipeline of biz/base_log.go: the buffer and its worker, the records, and their keys.
pub mod Event
pub mod Pipeline
pub mod Key
pub mod Store
mod Tests
