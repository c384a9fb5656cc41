-- ===== src/Api.antt =====
-- engram/api: authentication and the endpoints.
pub mod Auth
pub mod Tokens
pub mod Routes
