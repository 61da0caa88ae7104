-- ===== src/Client.antt =====
-- `irctest/client_mock.py`: the client that reads messages from a socket and sends lines.
pub mod Decode
pub mod Mock
pub mod Receive
pub mod Wire
pub mod Fuel
mod Tests
