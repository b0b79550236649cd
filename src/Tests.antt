-- ===== src/Tests.antt =====
-- Concrete data, runs of the code on it, and the theorems at it.
pub mod Data
pub mod Doubles
mod SimulatedRuns
mod BuiltInRuns
mod Time
mod StoreRuns
mod TransportRuns
mod RunnerRuns
mod SystemRuns
mod WireRuns
mod SchedulerRuns
mod MqttRuns
mod SensorRuns
mod AgentRuns
mod ConfigRuns
mod Console
mod MainRuns
mod DeployedRuns
