-- ===== src/Protocol.antt =====
-- internal/protocol: the frames on the serial line.
pub mod Bytes
pub mod Urpc
pub mod Dcp
