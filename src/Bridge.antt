-- ===== src/Bridge.antt =====
-- The fetch bridge: src/dext/bridge, with src/dext/url_policy.py.
pub mod Types
pub mod UrlPolicy
pub mod Mojibake
pub mod Queue
pub mod Health
pub mod Decision
pub mod Fetcher
pub mod System
mod Tests
