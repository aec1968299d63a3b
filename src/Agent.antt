-- ===== src/Agent.antt =====
-- src/gptlink/agent: what an Agent does on its device.
pub mod Paths
pub mod Reads
pub mod Dispatcher
pub mod Client
pub mod Windows
pub mod Executors
pub mod Assembly
pub mod Reconnect
pub mod Credentials
pub mod Wsl
pub mod Files
pub mod Jobs
mod Tests
