-- ===== src/Sensors.antt =====
-- agent/factoryfleet_agent/sensors
pub mod Reading
pub mod Metrics
pub mod Sample
pub mod Registry
pub mod Options
pub mod Simulation
pub mod Limit
pub mod Vibration
pub mod Temperature
pub mod CycleCount
pub mod BuiltIn
