-- ===== src/Settings.antt =====
-- services/platform_settings_service.py and db/platform_settings.py: the table of settings, the
-- cache that every reader consults, and which keys are secret.
pub mod Keys
pub mod Cache
pub mod Lookup
pub mod Agreement
pub mod Secrecy
pub mod Admin
pub mod Masked
pub mod Operator
pub mod Blanked
mod Examples
