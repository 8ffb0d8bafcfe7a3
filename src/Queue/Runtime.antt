-- ===== src/Queue/Runtime.antt =====
-- The runtime state of the queue (src/agent_crew/queue.py, runtime_stop and runtime_state_events).
pub mod Row
pub mod Authority
pub mod Refusal
pub mod Moves
pub mod Boot
pub mod Steps
pub mod Loosening
pub mod Change
pub mod Discipline
pub mod Gates
pub mod Granting
