-- ===== src/Queue.antt =====
-- The task queue (src/agent_crew/queue.py).
pub mod Runtime
pub mod Announcements
pub mod Outbox
pub mod External
pub mod Tasks
