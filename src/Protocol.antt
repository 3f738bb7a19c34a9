-- ===== src/Protocol.antt =====
-- CommonModule/protocol: the packet format, its codec, and the shared file protocol.
pub mod Packet
pub mod Codec
pub mod FileProtocol
