-- ===== src/Migration.antt =====
-- The resource/migration package: the files of a module's migrations and their translations.
pub mod Strip
pub mod Files
pub mod Sync
mod Tests
