-- ===== src/Sftp.antt =====
-- The SFTP client over an SSH channel: worker/src/webssh/ssh/sftp.ts.
pub mod Frames
pub mod Reader
pub mod Attrs
pub mod Parsing
pub mod Client
pub mod Dispatch
pub mod Operations
pub mod Delivery
pub mod Responses
pub mod RequestIds
pub mod Disposal
pub mod Handler
mod Tests
