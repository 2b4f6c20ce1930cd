-- ===== src/ApiResource.antt =====
-- resource/biz/base_api.go: the records of the API resources, from an OpenAPI document.
pub mod Names
pub mod Prompts
pub mod Packages
pub mod Records
mod Tests
