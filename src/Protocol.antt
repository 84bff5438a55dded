-- ===== src/Protocol.antt =====
-- fendd/src/protocol.rs: the frames of the vsock protocol, and base64.
pub mod Frame
pub mod Base64
mod Tests
