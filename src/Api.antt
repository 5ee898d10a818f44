-- ===== src/Api.antt =====
-- api/dns/v1: the custom resources and their methods.
pub mod Meta
pub mod Record
pub mod Provider
pub mod Generator
pub mod Watcher
