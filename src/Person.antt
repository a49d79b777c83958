-- ===== src/Person.antt =====
-- db/persons.py, db/person_identities.py and services/person_service.py: accounts, the identities
-- that prove them, and who a completed sign-in belongs to.
pub mod Store
pub mod Service
pub mod Results
pub mod Unique
pub mod Histories
pub mod Linking
pub mod Account
pub mod Passwords
pub mod Registration
mod Examples
