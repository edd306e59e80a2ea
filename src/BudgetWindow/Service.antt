-- ===== src/BudgetWindow/Service.antt =====
-- services/economy_budget_window_submission.py and economy_budget_window_results.py: the request
-- handler, from the moment its setup options and cache key are built.
pub mod Request
pub mod Results
pub mod Submission
pub mod Found
pub mod Owned
pub mod Once
pub mod Live
pub mod Fresh
