-- ===== src/Persistence/Repositories.antt =====
-- src/gptlink/persistence/repositories.py: a query is an action on the tables; `flush` raises
-- IntegrityError where a declared constraint of the schema does not hold.
pub mod Devices
pub mod Pairing
pub mod Leases
pub mod Jobs
pub mod Requests
