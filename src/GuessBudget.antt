-- ===== src/GuessBudget.antt =====
-- services/guess_budget.py
pub mod Draws
pub mod Ledger
pub mod Attempts
mod Examples
