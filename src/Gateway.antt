-- ===== src/Gateway.antt =====
-- src/gptlink/gateway: the services of the Gateway process.
pub mod App
pub mod Audit
pub mod Auth
pub mod Leases
pub mod Operations
pub mod Pairing
pub mod Registry
pub mod Remote
pub mod Socket
