-- ===== src/Api.antt =====
-- internal/api: the handlers of the HTTP API that hold a session or a share link.
pub mod SignIn
pub mod Matching
pub mod Decide
pub mod Shares
