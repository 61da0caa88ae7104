-- ===== src/Controllers.antt =====
-- The life of the processes that controllers run (`irctest/basecontrollers.py`).
pub mod Start
pub mod Stop
pub mod Services
mod Tests
