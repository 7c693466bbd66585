-- ===== src/Crawl.antt =====
-- The crawl graph and the engine that works it off: src/dext/storage and src/dext/engine.
pub mod Tables
pub mod Types
pub mod Keys
pub mod Retry
pub mod Store
pub mod Claim
pub mod Commands
pub mod Driver
pub mod People
pub mod Extract
pub mod Names
pub mod Run
mod Samples
mod Tests
