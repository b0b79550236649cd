-- ===== src/Transport.antt =====
-- agent/factoryfleet_agent/transport
pub mod Broker
pub mod Mqtt
pub mod Publisher
