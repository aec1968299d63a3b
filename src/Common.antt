-- ===== src/Common.antt =====
-- src/gptlink/common: the shared enumerations, the exceptions, and actions that raise.
pub mod Types
pub mod Errors
pub mod Action
pub mod Json
pub mod Config
