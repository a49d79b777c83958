-- ===== src/Policy.antt =====
-- services/auth_service.py: the allow-list of persons and the list of addresses that need no
-- confirmation.
pub mod Lists
pub mod Admits
mod Examples
