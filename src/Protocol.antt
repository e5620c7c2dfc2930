-- ===== src/Protocol.antt =====
-- The framed protocol of server/msx_protocol.py.
pub mod Frame
pub mod Crc
pub mod Codec
pub mod Parser
pub mod Finish
pub mod Exchange
mod Tests
