-- ===== src/Patma.antt =====
-- `irctest/patma.py`: the patterns that test cases compare messages with.
pub mod Operators
pub mod Match
pub mod Strings
pub mod Lists
pub mod Dicts
mod Tests
