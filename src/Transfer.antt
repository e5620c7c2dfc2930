-- ===== src/Transfer.antt =====
-- The file-transfer contract of server/msx_transfer.py.
pub mod Types
pub mod Descriptor
pub mod Open
pub mod PackBits
pub mod Requests
pub mod Replies
pub mod Basic
pub mod Hex
pub mod Journal
pub mod Digest
pub mod Payload
mod Tests
