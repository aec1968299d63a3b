-- ===== src/Protocol.antt =====
-- src/gptlink/protocol: the messages between the Gateway and an Agent.
pub mod Messages
pub mod Tags
