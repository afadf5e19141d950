-- ===== src/Config.antt =====
-- The configuration of src/config: its schema and its validation.
pub mod Schema
pub mod Validate
pub mod Load
mod Tests
