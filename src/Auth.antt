-- ===== src/Auth.antt =====
-- internal/auth: tokens (jwt.go) and generated passwords (password.go).
pub mod Jwt
pub mod Passwords
pub mod Tests
