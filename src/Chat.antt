-- ===== src/Chat.antt =====
-- src/gptlink/chat: the action blocks in a model's text, and the loop that carries them out.
pub mod Protocol
pub mod Orchestrator
pub mod Web2api
pub mod Prompt
mod Tests
