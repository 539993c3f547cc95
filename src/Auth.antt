-- ===== src/Auth.antt =====
-- The password gate of app/routes/auth.py: the limiter and the login form.
pub mod Limiter
pub mod Login
