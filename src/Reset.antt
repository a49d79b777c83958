-- ===== src/Reset.antt =====
-- Password resets by a mailed link: routers/auth_router.py and models/password_reset.py.
pub mod Links
pub mod Once
pub mod Begin
pub mod Proof
pub mod Mailed
mod Examples
