-- ===== src/Persistence.antt =====
-- src/gptlink/persistence: the entities, their tables and the queries on them.
pub mod Models
pub mod Repositories
pub mod Samples
