-- ===== src/Otp.antt =====
-- services/otp_service.py over db/otp_codes.py: codes by mail, their table, and what bounds guessing.
pub mod Codes
pub mod Latest
pub mod Service
pub mod History
pub mod Share
pub mod Draws
pub mod Live
pub mod Single
pub mod Verify
mod Examples
