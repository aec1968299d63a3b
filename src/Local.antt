-- ===== src/Local.antt =====
-- src/gptlink/local: carrying out a chat's actions on the machine where the chat runs.
pub mod Approvals
pub mod Runtime
mod Tests
