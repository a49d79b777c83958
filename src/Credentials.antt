-- ===== src/Credentials.antt =====
-- The credentials of servers: the operator's routes over them and the grant that takes one.
pub mod Table
pub mod Routes
pub mod Grant
pub mod Refused
pub mod Rotation
mod Examples
