-- ===== src/Auth.antt =====
-- Authentication of the mobile application (src/auth): refresh sessions and one-time passwords.
pub mod Sessions
pub mod Otp
