-- ===== src/Passkey.antt =====
-- db/passkey_challenges.py, db/passkey_credentials.py and the two ceremonies of
-- services/passkey_service.py.
pub mod Challenges
pub mod Login
pub mod Sound
pub mod Register
pub mod Enrolment
pub mod Once
mod Examples
