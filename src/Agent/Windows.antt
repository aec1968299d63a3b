-- ===== src/Agent/Windows.antt =====
-- src/gptlink/agent/executors/windows_process.py: the Job Objects that hold the command trees, with
-- the calls of kernel32 as a parameter, and the list of processes.
pub mod JobObjects
pub mod Handles
pub mod Processes
pub mod Listed
mod Tests
