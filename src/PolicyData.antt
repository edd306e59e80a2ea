-- ===== src/PolicyData.antt =====
-- utils/policy_data_validation.py: which period keys and values of a policy simulations can read.
pub mod Dates
pub mod Entries
mod Tests
