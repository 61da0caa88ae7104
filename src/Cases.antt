-- ===== src/Cases.antt =====
-- `irctest/cases.py`: what the test cases do with messages.
pub mod Fuelled
pub mod Clients
pub mod Differs
pub mod Session
pub mod Negotiate
pub mod Batch
pub mod Connect
mod Runs
mod Tests
