-- ===== src/Kdf.antt =====
-- services/auth_service.py, `kdf_admit` and `kdf_release`: how many requests that spend a key
-- derivation are open at a time.
pub mod Admission
pub mod Requests
pub mod Counts
mod Examples
