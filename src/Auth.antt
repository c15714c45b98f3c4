-- ===== src/Auth.antt =====
-- Package auth: refresh tokens that are used once (pkg/auth/).
pub mod Store
pub mod Tokens
pub mod Rotate
pub mod Cookies
