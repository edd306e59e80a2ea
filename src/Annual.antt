-- ===== src/Annual.antt =====
-- services/economy_service.py, economy_stored_impacts.py, economy_impact_execution.py: the request
-- for the economic impact of a reform in one year.
pub mod Setup
pub mod Request
pub mod Stored
pub mod Bundle
pub mod Execution
pub mod Submission
pub mod Deletion
pub mod Quiet
pub mod Tables
pub mod Spm
pub mod Build
mod Tests
