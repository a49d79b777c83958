-- ===== src/Password.antt =====
-- Sign-in with a password: the two routes of routers/auth_router.py that prove the same credential.
pub mod SignIn
pub mod Proven
pub mod Routes
mod Examples
