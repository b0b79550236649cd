-- ===== src/Config.antt =====
-- agent/factoryfleet_agent/config.py
pub mod Types
pub mod Toml
pub mod Machine
pub mod Broker
pub mod SensorFiles
pub mod Load
