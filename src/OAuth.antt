-- ===== src/OAuth.antt =====
-- routers/auth_router.py, with the redirect rules of services/auth_service.py and db/oauth_clients.py:
-- the authorization code flow, from the request that starts it to the exchange of its code.
pub mod Exchange
pub mod Granted
pub mod Expired
pub mod Redirect
pub mod Matching
pub mod Clients
pub mod Metadata
pub mod Register
pub mod Validated
pub mod Registered
pub mod Flow
pub mod SignIn
pub mod Admitted
pub mod Steps
pub mod Exchanging
pub mod Registering
pub mod Returning
pub mod Minting
pub mod Delivery
mod Examples
mod FlowExamples
