-- ===== src/Message.antt =====
-- `irctest/irc_utils/message_parser.py`: messages of the IRC protocol.
pub mod Escape
pub mod Tags
pub mod Parse
pub mod Render
mod Tests
