-- ===== src/KeyCustody.antt =====
-- services/key_shares.py, models/key_custody.py and routers/key_share_router.py: one share of each
-- of Mantle's master keys, held for Mantle alone.
pub mod Shares
pub mod Kept
pub mod RoundTrip
pub mod Tokens
pub mod Router
pub mod Guard
mod Examples
