-- ===== src/Cea/Validator.antt =====
-- The receipt validator (src/agent_crew/cea/validator.py).
pub mod Inputs
pub mod Checks
pub mod Judge
pub mod Refusals
pub mod Authorised
pub mod Soundness
pub mod Completeness
pub mod Contract
pub mod Passed
