-- ===== src/Policy.antt =====
-- resource/biz/casbin_rule.go over data/permission.go: the access rules of roles.
pub mod Records
pub mod Rules
pub mod Refresh
mod Tests
