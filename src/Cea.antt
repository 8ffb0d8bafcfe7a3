-- ===== src/Cea.antt =====
-- The admission engine's receipt side (src/agent_crew/cea/): the frozen receipt types, the
-- enforcement matrix, the validator and the receipt store.
pub mod Types
pub mod Matrix
pub mod Drift
pub mod Validator
pub mod Store
pub mod CallSites
