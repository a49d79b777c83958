-- ===== src/Mail.antt =====
-- services/guess_budget.py and routers/auth_router.py: the budget of the mail that anybody may ask for.
pub mod Budget
pub mod Counted
pub mod Inbox
mod Examples
