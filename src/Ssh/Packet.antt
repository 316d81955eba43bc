-- ===== src/Ssh/Packet.antt =====
-- The packet layer: worker/src/webssh/ssh/packet.ts. The parser keeps the received chunks in a list
-- with a read position; the builder pads, encrypts and authenticates one packet.
pub mod Buffer
pub mod Parser
pub mod Builder
mod Tests
