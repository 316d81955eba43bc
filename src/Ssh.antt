-- ===== src/Ssh.antt =====
-- The SSH stack of the web terminal (worker/src/webssh/ssh).
pub mod Wire
pub mod Packet
pub mod Channel
