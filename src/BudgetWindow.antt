-- ===== src/BudgetWindow.antt =====
-- Budget-window reports: one shared batch job for each report.
pub mod Setup
pub mod State
pub mod Store
pub mod Impact
pub mod Service
mod Tests
