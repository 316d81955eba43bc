-- ===== src/Session.antt =====
-- The terminal session over the SSH channel: worker/src/webssh/backend/session.ts.
pub mod Input
