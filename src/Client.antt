-- ===== src/Client.antt =====
-- The interceptors of client/middleware, around an invoker that changes a state of its own.
pub mod Retry
mod Tests
