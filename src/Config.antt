-- ===== src/Config.antt =====
-- app/config: the schema of the settings, their migration and repair, and the cache in front of them.
pub mod Schema
pub mod Migration
pub mod Settings
pub mod Present
pub mod RepairSteps
pub mod Repaired
mod Tests
