-- ===== src/Sftp/Handler.antt =====
-- The file transfers of a browser: worker/src/webssh/backend/sftp-handler.ts.
pub mod Entries
pub mod Protocol
pub mod State
pub mod Arrivals
pub mod Opening
pub mod Downloads
pub mod Uploads
pub mod Listing
pub mod Handles
pub mod Neutral
pub mod Runs
mod Tests
